-- ===== src/Extract.antt =====
-- src/extract.rs: the text of the fields of an issue, in segments with the path of each.
pub mod Leaves
use jiraleaks.Base.{
  ℕ, zero, suc, ◌+◌, ◌-◌, ◌*◌, ◌/◌, ◌%◌, ◌^◌, ◌≤◌, ◌<◌, min, max, Bool, true, false, not, ◌&&◌,
  ◌||◌, Option, none, some, List, [], ◌∷◌, ◌++◌, map, append_assoc, append-nil, ◌≡◌, ◌≢◌, ◌↔◌, ◌⊎◌,
  inl, inr, refl, sym, ap, ◌∙◌, subst, arith, ltb, leb, ◌==◌, if◌then◌else◌, Bool-cases,
  Option-cases, eq_of_==, ==_refl, &&-true, ||-true, ||-false, length, get_elem?, take, drop,
  is_empty, any, all, All, In, here, there, length-append, length-take-le, length-reverse, reverse,
  reverse-append, In-append_left, In-append_right, In-append_split, All-append, All-In, Text, codes,
  text_eq, eq_of_text_eq, text_eq_refl, text_eq_of_eq, text_eq_comm, if_intro,
}
use jiraleaks.Text.Find.{starts_with, contains}
use jiraleaks.Text.Bytes.{byte_len, floor_prefix, usize_max}
use jiraleaks.Finding.{SourceType}
use jiraleaks.Json.{
  Value, Values, Fields, string, array, object, no_values, value_then, no_fields, field_then,
}

pub record TextSegment : Type 0 where
  pub field_path : Text
  pub text : Text
  pub source_type : SourceType

-- A number in decimal; each step on fuel leaves a tenth.
unfoldable pub digits_from : (fuel : ℕ) → ℕ → Text → Text
digits_from zero n digits = digits
digits_from (suc fuel) n digits =
    let rest = digits_from fuel (n / 10) ((b'0' + n % 10) ∷ digits) in
    if ltb n 10 then (b'0' + n) ∷ digits else rest

unfoldable pub decimal : ℕ → Text
unfolding digits_from
decimal n = digits_from (suc n) n []

-- The paths `{path}.{key}` and `{path}[{i}]`.
unfoldable pub at_key : Text → Text → Text
at_key path key = if is_empty path then key else path ++ b'.' ∷ key

unfoldable pub at_index : Text → ℕ → Text
unfolding decimal
at_index path i = path ++ (b'[' ∷ (decimal i ++ b']' ∷ []))

unfoldable pub classify_path : Text → SourceType
classify_path path =
    if starts_with path (codes "comment") || contains path (codes ".comment")
    then SourceType.comment
    else if starts_with path (codes "attachment") || contains path (codes ".attachment")
    then SourceType.attachment
    else if starts_with path (codes "description")
    then SourceType.description
    else SourceType.custom_field

module _ (max_text_size_kb : ℕ) where
  abbrev pub max_bytes : ℕ
  max_bytes = min (max_text_size_kb * 1024) usize_max

  unfoldable pub truncate : Text → Text
  truncate text = if leb (byte_len text) max_bytes then text else floor_prefix text max_bytes

  unfoldable pub segment : (field_path text : Text) → SourceType → TextSegment
  unfolding truncate
  segment field_path text source_type = record {
    field_path = field_path;
    text = truncate text;
    source_type = source_type;
  }

  unfoldable mutual
    unfolding segment classify_path at_key at_index

    pub walk_value : (path : Text) → Value → List TextSegment → List TextSegment
    walk_value path (string s) segments = segments ++ segment path s (classify_path path) ∷ []
    walk_value path (array values) segments = walk_elements path 0 values segments
    walk_value path (object fields) segments = walk_fields path fields segments
    walk_value path _ segments = segments

    -- The loop over the elements of an array, from an index on.
    pub walk_elements : (path : Text) (i : ℕ) → Values → List TextSegment → List TextSegment
    walk_elements path i no_values segments = segments
    walk_elements path i (value_then v values) segments =
        walk_elements path (i + 1) values (walk_value (at_index path i) v segments)

    pub walk_fields : (path : Text) → Fields → List TextSegment → List TextSegment
    walk_fields path no_fields segments = segments
    walk_fields path (field_then key v fields) segments =
        walk_fields path fields (walk_value (at_key path key) v segments)

  unfoldable pub extract : Value → List TextSegment
  unfolding walk_fields
  extract (object fields) = walk_fields [] fields []
  extract _ = []

  unfoldable pub extract_at : (path : Text) → Value → List TextSegment
  unfolding walk_value
  extract_at path v = walk_value path v []
