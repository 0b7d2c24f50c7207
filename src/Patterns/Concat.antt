-- ===== src/Patterns/Concat.antt =====
-- Texts one after the other.
use myqrlwallet_backend.Prelude.{◌≡◌, refl, ap, String}
use myqrlwallet_backend.Patterns.{concat}

pub concat_nil : (s : String) → concat s "" ≡ s
unfolding concat
concat_nil String.[] = refl
concat_nil (String.◌∷◌ c s) = ap (String.◌∷◌ c) (concat_nil s)

pub concat_assoc : (s t u : String) → concat (concat s t) u ≡ concat s (concat t u)
unfolding concat
concat_assoc String.[] t u = refl
concat_assoc (String.◌∷◌ c s) t u = ap (String.◌∷◌ c) (concat_assoc s t u)
