-- ===== src/Value.antt =====
-- The values of `unknown` type that arrive from the network: what `JSON.parse` and Socket.IO yield.
-- `neg n` is the integer -(n + 1), and -0 is 0, which no test of the source tells from it. A double
-- that is no integer (a fraction, an infinity, NaN) stands for itself by its bit pattern.
use myqrlwallet_backend.Prelude.{
  ℕ, String, Bool, true, false, List, [], ◌∷◌, ◌==◌, str_eq, get_or_else, Dict.Dict,
}
use myqrlwallet_backend.Prelude.Dict

pub data Number : Type 0 where
  nat : ℕ → Number
  neg : ℕ → Number
  other : ℕ → Number

mutual
  pub data Value : Type 0 where
    undefined null : Value
    obj : Fields → Value
    arr : Items → Value
    bool : Bool → Value
    str : String → Value
    num : Number → Value

  pub data Fields : Type 0 where
    no_fields : Fields
    field : String → Value → Fields → Fields

  pub data Items : Type 0 where
    no_items : Items
    item : Value → Items → Items

abbrev pub items : Items → List Value
items no_items = []
items (item v vs) = v ∷ items vs

abbrev pub fields : Fields → Dict Value
fields no_fields = []
fields (field k v fs) = (k, v) ∷ fields fs

abbrev pub is_record : Value → Bool
is_record (Value.obj fs) = true
is_record _ = false

-- `'name' in value`
abbrev pub has_field : String → Value → Bool
has_field name (Value.obj fs) = Dict.has name (fields fs)
has_field name _ = false

-- `value.name`
abbrev pub field_of : String → Value → Value
field_of name (Value.obj fs) = get_or_else (Dict.get name (fields fs)) Value.undefined
field_of name _ = Value.undefined

abbrev pub is_text : String → Value → Bool
is_text s (Value.str t) = str_eq t s
is_text s _ = false

abbrev pub is_number : ℕ → Value → Bool
is_number n (Value.num (Number.nat k)) = k == n
is_number n _ = false

-- `value === undefined || value === null`
abbrev pub is_missing : Value → Bool
is_missing Value.undefined = true
is_missing Value.null = true
is_missing _ = false
