-- ===== src/Candidate/Filters.antt =====
-- What the filters of a rule ask of a candidate, said without the code of the checks.
use jiraleaks.Base.{
  ℕ, ◌+◌, ◌≤◌, Bool, true, false, not, ◌&&◌, Option, none, some, List, [], ◌∷◌, ◌≡◌, ◌↔◌, inl, inr,
  refl, arith, ◌==◌, if◌then◌else◌, Option-cases, length, any, Text,
}
use jiraleaks.Text.Find.{contains}
use jiraleaks.Redact.{Range}
use jiraleaks.Entropy.{Float, shannon}
use jiraleaks.Validators
use jiraleaks.Validators.{is_ascii_digit, is_ascii_uppercase, is_ascii_lowercase}
use jiraleaks.Rule.{CompiledRule}
use jiraleaks.Candidate.{Candidate, CharClass, context_radius, context_window}
use jiraleaks.Candidate.Checks.{
  Counts, count_char, count_chars, min_length, entropy, denylist, placeholder, validator,
  class_check, char_classes, context_keywords,
}
use jiraleaks.Candidate.Judge.{passed, value_checks, rule_validator, rule_filters}

-- A lower bound, where the rule has one.
abbrev pub IsAtLeast : Option ℕ → ℕ → Type 0
IsAtLeast none n = Unit
IsAtLeast (some least) n = least ≤ n

abbrev pub count_of : (ℕ → Bool) → Text → ℕ
count_of p [] = 0
count_of p (c ∷ s) = (if p c then 1 else 0) + count_of p s

-- A character that a rule counts as special: one it lists, and no ASCII letter or digit.
abbrev pub is_special : List ℕ → ℕ → Bool
is_special special_chars c =
    not (is_ascii_digit c)
    && not (is_ascii_uppercase c)
    && not (is_ascii_lowercase c)
    && any (λ d. d == c) special_chars

-- The counts `n` are those of `s` and what was counted before.
record IsTally (special_chars : List ℕ) (before : Counts) (s : Text) (n : Counts) : Type 0 where
  pub digit : n.digits ≡ before.digits + count_of is_ascii_digit s
  pub upper : n.upper ≡ before.upper + count_of is_ascii_uppercase s
  pub lower : n.lower ≡ before.lower + count_of is_ascii_lowercase s
  pub special : n.special ≡ before.special + count_of (is_special special_chars) s

count_char-IsTally :
    (special_chars : List ℕ) (c : ℕ) (n : Counts)
    → IsTally special_chars n (c ∷ []) (count_char special_chars c n)
unfolding count_char
count_char-IsTally special_chars c n = record {
  digit = ground arith;
  upper = ground arith;
  lower = ground arith;
  special = ground arith;
}

count_chars-IsTally :
    (special_chars : List ℕ) (s : Text) (n : Counts)
    → IsTally special_chars n s (count_chars special_chars s n)
unfolding count_chars
count_chars-IsTally special_chars [] n = record {
  digit = omega arith;
  upper = omega arith;
  lower = omega arith;
  special = omega arith;
}
count_chars-IsTally special_chars (c ∷ s) n =
    let first = count_char-IsTally special_chars c n in
    let rest = count_chars-IsTally special_chars s (count_char special_chars c n) in
    record {
      digit = omega (arith, first.digit, rest.digit);
      upper = omega (arith, first.upper, rest.upper);
      lower = omega (arith, first.lower, rest.lower);
      special = omega (arith, first.special, rest.special);
    }

module _ (fl : Float) (lower : Text → Text) where
  open fl use {F, lt}

  abbrev pub IsRandom : Option F → Text → Type 0
  IsRandom none value = Unit
  IsRandom (some least) value = lt (shannon fl value) least ≡ false

  -- One of the words stands in the text, both in lower case.
  abbrev pub mentions : Text → List Text → Bool
  mentions text entries = any (λ word. contains (lower text) (lower word)) entries

  -- One of the keywords stands near the span, if the rule has keywords.
  abbrev pub InContext : Text → Range → List Text → Type 0
  InContext text span [] = Unit
  InContext text span (k ∷ keywords) =
      (window : Text) × (context_window text span context_radius ≡ some window)
      × (mentions window (k ∷ keywords) ≡ true)

  abbrev pub IsValidated : Option Text → Text → Type 0
  IsValidated none value = Unit
  IsValidated (some name) value = Validators.validate name value ≡ some true

  -- What a rule asks of a candidate.
  pub record Accepts (rule : CompiledRule F) (cand : Candidate) : Type 0 where
    pub long_enough : IsAtLeast rule.min_length (length cand.value)
    pub random_enough : IsRandom rule.min_entropy cand.value
    pub not_denied : mentions cand.value rule.denylist ≡ false
    pub no_placeholder : mentions cand.value rule.ignore_if_contains ≡ false
    pub digits : IsAtLeast rule.min_digits (count_of is_ascii_digit cand.value)
    pub uppercase : IsAtLeast rule.min_uppercase (count_of is_ascii_uppercase cand.value)
    pub lowercase : IsAtLeast rule.min_lowercase (count_of is_ascii_lowercase cand.value)
    pub specials :
        IsAtLeast rule.min_special_chars (count_of (is_special rule.special_chars) cand.value)
    pub in_context : InContext cand.text cand.value_span rule.context_keywords
    pub validated : IsValidated rule.validator cand.value

  min_length_iff :
      (value : Text) (o : Option ℕ)
      → (min_length fl lower value o ≡ none) ↔ IsAtLeast o (length value)
  unfolding min_length
  min_length_iff value none = (λ _. tt, λ _. refl)
  min_length_iff value (some least) = (λ h. ground arith, λ h. ground arith)

  entropy_iff : (value : Text) (o : Option F) → (entropy fl lower value o ≡ none) ↔ IsRandom o value
  unfolding entropy
  entropy_iff value none = (λ _. tt, λ _. refl)
  entropy_iff value (some least) = (λ h. ground arith, λ h. ground arith)

  denylist_iff :
      (value : Text) (entries : List Text)
      → (denylist fl lower value entries ≡ none) ↔ (mentions value entries ≡ false)
  unfolding denylist
  denylist_iff value [] = (λ _. refl, λ _. refl)
  denylist_iff value (e ∷ entries) = (λ h. ground arith, λ h. ground arith)

  placeholder_iff :
      (value : Text) (entries : List Text)
      → (placeholder fl lower value entries ≡ none) ↔ (mentions value entries ≡ false)
  unfolding placeholder
  placeholder_iff value [] = (λ _. refl, λ _. refl)
  placeholder_iff value (e ∷ entries) = (λ h. ground arith, λ h. ground arith)

  class_check_iff :
      (required : CharClass) (o : Option ℕ) (got n : ℕ)
      → got ≡ 0 + n
      → (class_check fl lower required o got ≡ none) ↔ IsAtLeast o n
  unfolding class_check
  class_check_iff required none got n e = (λ _. tt, λ _. refl)
  class_check_iff required (some least) got n e = (λ h. ground (arith, e), λ h. ground (arith, e))

  context_iff :
      (text : Text) (span : Range) (keywords : List Text)
      → (context_keywords fl lower text span keywords ≡ some none) ↔ InContext text span keywords
  unfolding context_keywords
  context_iff text span [] = (λ _. tt, λ _. refl)
  context_iff text span (k ∷ keywords) =
      elim (Option-cases (context_window text span context_radius)) [
        | inl e ↦ (λ h. absurd (ground arith), λ (w, found, h). absurd (ground arith))
        | inr (w, e) ↦ (λ h. (w, e, ground arith), λ (w', found, h). ground arith)
      ]

  validator_iff :
      (rule : CompiledRule F) (value : Text)
      → (rule_validator fl lower rule value ≡ some none) ↔ IsValidated rule.validator value
  unfolding rule_validator validator
  validator_iff rule value = elim (Option-cases rule.validator) [
    | inl e ↦ rw e (λ _. tt, λ _. refl)
    | inr (name, e) ↦ rw e (λ h. ground arith, λ h. ground arith)
  ]

  classes_iff :
      (rule : CompiledRule F) (value : Text)
      → (char_classes fl lower value rule ≡ none) ↔ (
          IsAtLeast rule.min_digits (count_of is_ascii_digit value)
          × IsAtLeast rule.min_uppercase (count_of is_ascii_uppercase value)
          × IsAtLeast rule.min_lowercase (count_of is_ascii_lowercase value)
          × IsAtLeast rule.min_special_chars (count_of (is_special rule.special_chars) value))
  unfolding char_classes
  classes_iff rule value =
      let start : Counts = record { digits = 0; upper = 0; lower = 0; special = 0 } in
      let n = count_chars rule.special_chars value start in
      let tally = count_chars-IsTally rule.special_chars value start in
      let (d, d') = class_check_iff CharClass.min_digits rule.min_digits n.digits _ tally.digit in
      let (u, u') =
        class_check_iff CharClass.min_uppercase rule.min_uppercase n.upper _ tally.upper in
      let (l, l') =
        class_check_iff CharClass.min_lowercase rule.min_lowercase n.lower _ tally.lower in
      let (s, s') =
        class_check_iff CharClass.min_special_chars rule.min_special_chars n.special _
          tally.special in
      (
        λ h. (d (ground arith), u (ground arith), l (ground arith), s (ground arith)),
        λ (dh, uh, lh, sh). rw (d' dh, u' uh, l' lh, s' sh) refl,
      )

  -- Nothing makes the filters drop the candidate, check by check.
  record HasNoReason (rule : CompiledRule F) (cand : Candidate) : Type 0 where
    pub length_check : min_length fl lower cand.value rule.min_length ≡ none
    pub entropy_check : entropy fl lower cand.value rule.min_entropy ≡ none
    pub denylist_check : denylist fl lower cand.value rule.denylist ≡ none
    pub placeholder_check : placeholder fl lower cand.value rule.ignore_if_contains ≡ none
    pub classes_check : char_classes fl lower cand.value rule ≡ none
    pub context_check :
        context_keywords fl lower cand.text cand.value_span rule.context_keywords ≡ some none
    pub validator_check : rule_validator fl lower rule cand.value ≡ some none

  HasNoReason-of_passed :
      (rule : CompiledRule F) (cand : Candidate)
      → rule_filters fl lower rule cand ≡ some passed
      → HasNoReason rule cand
  unfolding rule_filters value_checks
  HasNoReason-of_passed rule cand h = ground arith

  passed_of_HasNoReason :
      (rule : CompiledRule F) (cand : Candidate)
      → HasNoReason rule cand
      → rule_filters fl lower rule cand ≡ some passed
  unfolding rule_filters value_checks
  passed_of_HasNoReason rule cand a = ground arith

  -- A candidate passes the filters of a rule, without a panic, exactly when its value has the length
  -- and the entropy that the rule asks for, holds no word of its denylist or of its placeholders,
  -- has as many digits, upper and lower case letters and special characters as the rule asks for,
  -- stands near one of its keywords if it has any, and its validator, if it names one, accepts the
  -- value. Words are compared in lower case.
  pub rule_filters-passed_iff :
      (rule : CompiledRule F) (cand : Candidate)
      → (rule_filters fl lower rule cand ≡ some passed) ↔ Accepts rule cand
  rule_filters-passed_iff rule cand = (
    λ h.
        let a = HasNoReason-of_passed rule cand h in
        let (d, u, l, s) = (classes_iff rule cand.value).0 a.classes_check in
        record {
          long_enough = (min_length_iff cand.value rule.min_length).0 a.length_check;
          random_enough = (entropy_iff cand.value rule.min_entropy).0 a.entropy_check;
          not_denied = (denylist_iff cand.value rule.denylist).0 a.denylist_check;
          no_placeholder =
              (placeholder_iff cand.value rule.ignore_if_contains).0 a.placeholder_check;
          digits = d;
          uppercase = u;
          lowercase = l;
          specials = s;
          in_context =
              (context_iff cand.text cand.value_span rule.context_keywords).0 a.context_check;
          validated = (validator_iff rule cand.value).0 a.validator_check;
        },
    λ a. passed_of_HasNoReason rule cand (record {
      length_check = (min_length_iff cand.value rule.min_length).1 a.long_enough;
      entropy_check = (entropy_iff cand.value rule.min_entropy).1 a.random_enough;
      denylist_check = (denylist_iff cand.value rule.denylist).1 a.not_denied;
      placeholder_check = (placeholder_iff cand.value rule.ignore_if_contains).1 a.no_placeholder;
      classes_check =
          (classes_iff rule cand.value).1 (a.digits, a.uppercase, a.lowercase, a.specials);
      context_check = (context_iff cand.text cand.value_span rule.context_keywords).1 a.in_context;
      validator_check = (validator_iff rule cand.value).1 a.validated;
    }),
  )
