-- ===== src/Candidate/Checks.antt =====
-- src/candidate.rs: the checks of a candidate, one by one: a reason to drop it, or none. The two
-- checks that may panic are `none` where they do. `lower` stands for `str::to_lowercase`.
use jiraleaks.Base.{
  ℕ, ◌+◌, min, Bool, ◌||◌, Option, none, some, List, [], ◌∷◌, ltb, ◌==◌, if◌then◌else◌, length,
  is_empty, any, Text, text_eq,
}
use jiraleaks.Text.Find.{contains}
use jiraleaks.Redact.{Range}
use jiraleaks.Entropy.{Float, shannon}
use jiraleaks.Validators
use jiraleaks.Validators.{is_ascii_digit, is_ascii_uppercase, is_ascii_lowercase}
use jiraleaks.Rule.{CompiledRule}
use jiraleaks.Candidate.{
  context_radius, context_words, CharClass, DropReason, PlaceholderMode, words, is_template,
  context_window,
}

-- The counts of one pass over a value: digits, upper case, lower case, special.
pub record Counts : Type 0 where
  pub digits : ℕ
  pub upper : ℕ
  pub lower : ℕ
  pub special : ℕ

unfoldable pub count_char : List ℕ → ℕ → Counts → Counts
count_char special_chars c n =
    if is_ascii_digit c
    then record n { digits = n.digits + 1 }
    else if is_ascii_uppercase c
    then record n { upper = n.upper + 1 }
    else if is_ascii_lowercase c
    then record n { lower = n.lower + 1 }
    else if any (λ d. d == c) special_chars
    then record n { special = n.special + 1 }
    else n

unfoldable pub count_chars : List ℕ → Text → Counts → Counts
count_chars special_chars [] n = n
count_chars special_chars (c ∷ s) n = count_chars special_chars s (count_char special_chars c n)

-- `PlaceholderPolicy::matches`.
unfoldable pub placeholder_matches : (lower : Text → Text) → PlaceholderMode → Text → Bool
placeholder_matches lower PlaceholderMode.by_substring value =
    any (λ word. contains (lower value) word) (words PlaceholderMode.by_substring)
placeholder_matches lower PlaceholderMode.by_equality value =
    any (λ word. text_eq (lower value) word) (words PlaceholderMode.by_equality)
    || is_template value

module _ (fl : Float) (lower : Text → Text) where
  open fl use {F, lt}

  unfoldable pub min_length : Text → Option ℕ → Option (DropReason F)
  min_length value none = none
  min_length value (some min) =
      if ltb (length value) min then some (DropReason.too_short min (length value)) else none

  unfoldable pub entropy : Text → Option F → Option (DropReason F)
  entropy value none = none
  entropy value (some min) =
      let got = shannon fl value in
      if lt got min then some (DropReason.low_entropy min got) else none

  unfoldable pub denylist : Text → List Text → Option (DropReason F)
  denylist value entries =
      if is_empty entries
      then none
      else if any (λ entry. contains (lower value) (lower entry)) entries
      then some DropReason.denylisted
      else none

  unfoldable pub placeholder : Text → List Text → Option (DropReason F)
  placeholder value entries =
      if is_empty entries
      then none
      else if any (λ word. contains (lower value) (lower word)) entries
      then some DropReason.is_placeholder
      else none

  unfoldable pub validator : Text → Text → Option (Option (DropReason F))
  validator name value = elim (Validators.validate name value) [
    | none ↦ none
    | some accepted ↦ some (if accepted then none else some DropReason.validator_rejected)
  ]

  -- One entry of the array of checks.
  unfoldable pub class_check : CharClass → Option ℕ → ℕ → Option (DropReason F)
  class_check required none got = none
  class_check required (some min) got =
      if ltb got min then some (DropReason.missing_char_class required min got) else none

  -- `reason.or_else(|| next)`.
  abbrev pub or_else : Option (DropReason F) → Option (DropReason F) → Option (DropReason F)
  or_else (some reason) next = some reason
  or_else none next = next

  unfoldable pub char_classes : Text → CompiledRule F → Option (DropReason F)
  unfolding class_check
  char_classes value rule =
      let n =
        count_chars rule.special_chars value
          (record { digits = 0; upper = 0; lower = 0; special = 0 }) in
      or_else (class_check CharClass.min_digits rule.min_digits n.digits) (
        or_else (class_check CharClass.min_uppercase rule.min_uppercase n.upper) (
          or_else (class_check CharClass.min_lowercase rule.min_lowercase n.lower)
            (class_check CharClass.min_special_chars rule.min_special_chars n.special)))

  unfoldable pub context_keywords : Text → Range → List Text → Option (Option (DropReason F))
  context_keywords text span keywords =
      if is_empty keywords then some none else elim (context_window text span context_radius) [
        | none ↦ none
        | some window ↦ some (
            if any (λ keyword. contains (lower window) (lower keyword)) keywords
            then none
            else some DropReason.missing_context_keyword)
      ]

unfoldable pub has_context_word : (lower : Text → Text) → Text → Range → Option Bool
has_context_word lower text span = elim (context_window text span context_radius) [
  | none ↦ none
  | some window ↦ some (any (λ word. contains (lower window) word) context_words)
]
