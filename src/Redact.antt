-- ===== src/Redact.antt =====
-- src/redact.rs: the preview of a secret, and the masking of the snippets that reports carry.
-- A panic of a slice is `none`.
pub mod Preview
pub mod Absent
use jiraleaks.Base.{
  ℕ, zero, suc, ◌+◌, ◌-◌, ◌*◌, ◌/◌, ◌%◌, ◌^◌, ◌≤◌, ◌<◌, min, max, Bool, true, false, not, ◌&&◌,
  ◌||◌, Option, none, some, List, [], ◌∷◌, ◌++◌, map, append_assoc, append-nil, ◌≡◌, ◌≢◌, ◌↔◌, ◌⊎◌,
  inl, inr, refl, sym, ap, ◌∙◌, arith, ltb, leb, ◌==◌, if◌then◌else◌, Bool-cases, Option-cases,
  eq_of_==, ==_refl, &&-true, ||-true, ||-false, length, get_elem?, take, drop, is_empty, any, all,
  All, In, here, there, length-append, reverse, In-append_left, In-append_right, In-append_split,
  All-append, All-In, Text, codes, text_eq, eq_of_text_eq, text_eq_refl, text_eq_of_eq,
}
use jiraleaks.Text.Find.{contains, replace}
use jiraleaks.Text.Bytes.{byte_len, floor_char_boundary, ceil_char_boundary, take_bytes, drop_bytes}

-- `Range<usize>`.
pub record Range : Type 0 where
  pub start : ℕ
  pub end : ℕ

unfoldable pub redact : Text → Text
redact value =
    if ltb (length value) 8
    then codes "[REDACTED]"
    else take 2 value ++ (codes "..." ++ reverse (take 2 (reverse value)))

abbrev pub with_rule : Text → Text
with_rule rule_id = codes "[REDACTED:" ++ (rule_id ++ codes "]")

abbrev pub generic : Text
generic = codes "[REDACTED]"

unfoldable pub marker_for : Text → Text → Text
marker_for rule_id value =
    if is_empty value || not (contains (with_rule rule_id) value)
    then with_rule rule_id
    else if not (contains generic value)
    then generic
    else []

unfoldable pub mask_all : Text → Text → Text → Text
mask_all text value rule_id =
    if is_empty value then text else replace text value (marker_for rule_id value)

-- The span moved out to character boundaries; `none` if it is unusable.
unfoldable pub clamp_span : Text → Range → Option Range
clamp_span snippet span =
    if ltb span.end span.start || ltb (byte_len snippet) span.end
    then none
    else let start = floor_char_boundary snippet span.start in
      let end = ceil_char_boundary snippet span.end in
      if leb end start then none else some (record { start = start; end = end })

unfoldable pub splice : Text → Range → Text → Option Text
splice snippet range replacement = elim (take_bytes snippet range.start) [
  | none ↦ none
  | some before ↦ elim (drop_bytes snippet range.end) [
    | none ↦ none
    | some after ↦ some (before ++ (replacement ++ after))
  ]
]

-- The pairs are secrets with the rule that found each.
unfoldable pub enforce_absent : Text → List (Text × Text) → Text
enforce_absent text [] = text
enforce_absent text ((value, rule_id) ∷ secrets) =
    enforce_absent
      (if is_empty value || not (contains text value) then text else mask_all text value rule_id)
      secrets

-- The first step of both maskings: the span of the match is replaced.
unfoldable pub mask_span : Text → Text → Range → Text → Option Text
mask_span snippet value span rule_id = elim (clamp_span snippet span) [
  | some range ↦ splice snippet range (marker_for rule_id value)
  | none ↦ some snippet
]

unfoldable pub redact_snippet : Text → Text → Range → Text → Option Text
redact_snippet snippet value span rule_id = elim (mask_span snippet value span rule_id) [
  | none ↦ none
  | some masked ↦ some (enforce_absent masked ((value, rule_id) ∷ []))
]

-- The loop over the other secrets of the segment.
unfoldable pub mask_others : Text → Text → List (Text × Text) → Text
mask_others value text [] = text
mask_others value text ((other_value, other_rule) ∷ others) =
    mask_others value
      (if is_empty other_value || text_eq other_value value
        then text
        else replace text other_value (marker_for other_rule other_value))
      others

unfoldable pub redact_snippet_with : Text → Text → Range → Text → List (Text × Text) → Option Text
redact_snippet_with snippet value span rule_id others =
    elim (mask_span snippet value span rule_id) [
      | none ↦ none
      | some text ↦
          some (enforce_absent (mask_others value text others) ((value, rule_id) ∷ others))
    ]
