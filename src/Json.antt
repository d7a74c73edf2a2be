-- ===== src/Json.antt =====
-- A JSON value of the crate `serde_json`, with the fields of an object in the order in which its
-- map iterates. A number is known by what `as_u64` returns.
use jiraleaks.Base.{ℕ, Bool, Option, none, some, suc, if◌then◌else◌, Text, text_eq}

mutual
  pub data Value : Type 0 where
    null : Value
    boolean : Bool → Value
    number : (as_u64 : Option ℕ) → Value
    string : Text → Value
    array : Values → Value
    object : Fields → Value

  pub data Values : Type 0 where
    no_values : Values
    value_then : Value → Values → Values

  pub data Fields : Type 0 where
    no_fields : Fields
    field_then : (key : Text) → Value → Fields → Fields

abbrev pub get_field : Fields → Text → Option Value
get_field no_fields key = none
get_field (field_then k v fields) key = if text_eq k key then some v else get_field fields key

-- `value.get(key)`.
abbrev pub get : Value → Text → Option Value
get (object fields) key = get_field fields key
get _ key = none

abbrev pub as_u64 : Value → Option ℕ
as_u64 (number n) = n
as_u64 _ = none

abbrev pub as_array : Value → Option Values
as_array (array values) = some values
as_array _ = none

abbrev pub count : Values → ℕ
count no_values = 0
count (value_then v values) = suc (count values)
