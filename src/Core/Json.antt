-- ===== src/Core/Json.antt =====
-- The documents that `json.loads` returns, as far as the strict models of fixrepro_core/models.py
-- look into them.
use fixrepro.Base.{
  ℕ, String, Bool, true, Option, none, some, ◌==◌, string_eq, if◌then◌else◌, ◌&&◌, List, contains,
}

-- `negative n` is -(n + 1); a float is never looked into.
mutual
  pub data Value : Type 0 where
    null float : Value
    bool : Bool → Value
    int : ℕ → Value
    negative : ℕ → Value
    text : String → Value
    arr : Items → Value
    obj : Fields → Value

  pub data Fields : Type 0 where
    end : Fields
    field : String → Value → Fields → Fields

  pub data Items : Type 0 where
    nil : Items
    cons : Value → Items → Items

-- `document[key]` of a dict, whose keys are unique.
unfoldable pub get_field : String → Fields → Option Value
get_field key end = none
get_field key (field k v fs) = if k == key then some v else get_field key fs

-- `extra="forbid"`
unfoldable pub no_extra : List String → Fields → Bool
no_extra names end = true
no_extra names (field k v fs) = contains names k && no_extra names fs

-- A strict `str` field.
unfoldable pub get_text : String → Fields → Option String
get_text key fs = elim (get_field key fs) [
  | some v ↦ elim v [ text s ↦ some s | _ ↦ none ]
  | none ↦ none
]

-- A strict `int` field that is not negative.
unfoldable pub get_nat : String → Fields → Option ℕ
get_nat key fs = elim (get_field key fs) [
  | some v ↦ elim v [ int n ↦ some n | _ ↦ none ]
  | none ↦ none
]
