-- ===== src/Prelude/Dict.antt =====
-- JavaScript's `Map` with string keys: an association list in insertion order.
use Prim.Native.Nat.{ℕ, ◌+◌, ◌≤◌}
use Prim.Native.String.{String}
use mathlib.Core.Path.{◌≡◌, refl, sym, ap, ◌∙◌, subst}
use mathlib.Core.Logic.{◌≢◌, inl, inr}
use mathlib.Core.Bool.{Bool}
use mathlib.Core.Option.{Option, none, some}
use mathlib.Core.List.{List, [], ◌∷◌}
use native.Mathlib.Omega.{arith}
use text.Mathlib.TextEquality.{eq_iff}
use myqrlwallet_backend.Prelude.Tests.{str_eq, if◌then◌else◌, get_or_else, is_some, Bool-cases}
use myqrlwallet_backend.Prelude.Lists.{length, All, keep_if}
use myqrlwallet_backend.Prelude.Sums.{sum_by}

abbrev pub Dict {ℓ} : Type ℓ → Type ℓ
Dict V = List (String × V)

module _ {ℓ} {V : Type ℓ} where
  unfoldable pub get : String → Dict V → Option V
  get k [] = none
  get k ((j, v) ∷ m) = if str_eq j k then some v else get k m

  abbrev pub has : String → Dict V → Bool
  has k m = is_some (get k m)

  -- A key that is there keeps its place; a new one goes to the end.
  unfoldable pub put : String → V → Dict V → Dict V
  put k v [] = (k, v) ∷ []
  put k v ((j, w) ∷ m) = if str_eq j k then (j, v) ∷ m else (j, w) ∷ put k v m

  unfoldable pub delete : String → Dict V → Dict V
  delete k [] = []
  delete k ((j, w) ∷ m) = if str_eq j k then m else (j, w) ∷ delete k m

  pub get-put :
      (k j : String) (v : V) (m : Dict V)
      → get j (put k v m) ≡ (if str_eq k j then some v else get j m)
  unfolding get put
  get-put k j v [] = refl
  get-put k j v ((i, w) ∷ m) = ground (arith, eq_iff k j, eq_iff i k, eq_iff i j, get-put k j v m)

  pub get-delete_ne : (k j : String) (m : Dict V) → k ≢ j → get j (delete k m) ≡ get j m
  unfolding get delete
  get-delete_ne k j [] h = refl
  get-delete_ne k j ((i, w) ∷ m) h = ground (arith, eq_iff i k, eq_iff i j, get-delete_ne k j m h)

  -- The keys of a `Map` are distinct.
  abbrev pub IsDistinct : Dict V → Type ℓ
  IsDistinct [] = Unit
  IsDistinct ((k, v) ∷ m) = (get k m ≡ none) × IsDistinct m

  pub put-IsDistinct : (k : String) (v : V) (m : Dict V) → IsDistinct m → IsDistinct (put k v m)
  unfolding get put
  put-IsDistinct k v [] d = (refl, tt)
  put-IsDistinct k v ((j, w) ∷ m) d =
      ground (arith, eq_iff j k, eq_iff k j, get-put k j v m, put-IsDistinct k v m d.1)

  get-delete-none : (k j : String) (m : Dict V) → get j m ≡ none → get j (delete k m) ≡ none
  unfolding get delete
  get-delete-none k j [] e = refl
  get-delete-none k j ((i, w) ∷ m) e = ground (arith, get-delete-none k j m)

  pub delete-IsDistinct : (k : String) (m : Dict V) → IsDistinct m → IsDistinct (delete k m)
  unfolding get delete
  delete-IsDistinct k [] d = tt
  delete-IsDistinct k ((j, w) ∷ m) d =
      ground (arith, get-delete-none k j m, delete-IsDistinct k m d.1)

  pub get-delete_self : (k : String) (m : Dict V) → IsDistinct m → get k (delete k m) ≡ none
  unfolding get delete
  get-delete_self k [] d = refl
  get-delete_self k ((j, w) ∷ m) d = ground (arith, eq_iff j k, get-delete_self k m d.1)

  -- The entries whose values pass a test.
  abbrev pub keep_values : (V → Bool) → Dict V → Dict V
  keep_values p = keep_if (λ (e : String × V). p e.1)

  abbrev pub passes : (V → Bool) → Option V → Option V
  passes p none = none
  passes p (some v) = if p v then some v else none

  pub get-keep_values :
      (k : String) (p : V → Bool) (m : Dict V)
      → IsDistinct m
      → get k (keep_values p m) ≡ passes p (get k m)
  unfolding get keep_if
  get-keep_values k p [] d = refl
  get-keep_values k p ((j, v) ∷ m) d = elim (Bool-cases (str_eq j k)) [
    | inl hit ↦ elim (Bool-cases (p v)) [
      | inl kept ↦ ground (arith, hit, kept)
      | inr gone ↦
          let absent = ap (λ x. get x m) (sym ((eq_iff j k).0 hit)) ∙ d.0 in
          ground (arith, hit, gone, absent, get-keep_values k p m d.1)
    ]
    | inr miss ↦ ground (arith, miss, get-keep_values k p m d.1)
  ]

  pub keep_values-IsDistinct :
      (p : V → Bool) (m : Dict V) → IsDistinct m → IsDistinct (keep_values p m)
  unfolding get keep_if
  keep_values-IsDistinct p [] d = tt
  keep_values-IsDistinct p ((j, v) ∷ m) d =
      ground (arith, d.0, get-keep_values j p m d.1, keep_values-IsDistinct p m d.1)

  pub length-put :
      (k : String) (v : V) (m : Dict V)
      → length (put k v m) ≡ (if has k m then length m else length m + 1)
  unfolding get put
  length-put k v [] = refl
  length-put k v ((i, w) ∷ m) = ground (arith, length-put k v m)

  pub length-delete : (k : String) (m : Dict V) → length (delete k m) ≤ length m
  unfolding delete
  length-delete k [] = omega arith
  length-delete k ((i, w) ∷ m) = ground (arith, length-delete k m)

  module _ (f : String × V → ℕ) where
    -- What the entry of a key contributes to a sum over the map.
    abbrev pub share : String → Dict V → ℕ
    share k m = get_or_else (elim (get k m) [ none ↦ none | some v ↦ some (f (k, v)) ]) 0

    pub sum_by-delete : (k : String) (m : Dict V) → sum_by f (delete k m) + share k m ≡ sum_by f m
    unfolding get delete sum_by
    sum_by-delete k [] = omega arith
    sum_by-delete k ((j, w) ∷ m) = ground (arith, eq_iff j k, sum_by-delete k m)

    pub sum_by-put :
        (k : String) (v : V) (m : Dict V) → sum_by f (put k v m) + share k m ≡ sum_by f m + f (k, v)
    unfolding get put sum_by
    sum_by-put k v [] = omega arith
    sum_by-put k v ((j, w) ∷ m) = ground (arith, eq_iff j k, sum_by-put k v m)

  module _ {κ} (P : String × V → Type κ) where
    pub All-delete : (k : String) (m : Dict V) → All P m → All P (delete k m)
    unfolding delete
    All-delete k [] h = tt
    All-delete k ((j, w) ∷ m) h = ground (arith, All-delete k m h.1)

    pub All-put : (k : String) (v : V) (m : Dict V) → P (k, v) → All P m → All P (put k v m)
    unfolding put
    All-put k v [] p h = (p, tt)
    All-put k v ((j, w) ∷ m) p h = ground (arith, eq_iff j k, All-put k v m p h.1)

module _ {ℓ κ} {V : Type ℓ} (P : V → Type κ) where
  -- What holds of all values holds of one that is found.
  pub All-get :
      (k : String) {v : V} (m : Dict V) → All (λ (e : String × V). P e.1) m → get k m ≡ some v → P v
  unfolding get
  All-get k [] h e = cc
  All-get k {v} ((j, w) ∷ m) h e = elim (Bool-cases (str_eq j k)) [
    | inl hit ↦ subst P (ground (arith, e, hit)) h.0
    | inr miss ↦ All-get k m h.1 (ground (arith, e, miss))
  ]
