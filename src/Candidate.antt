-- ===== src/Candidate.antt =====
-- src/candidate.rs: why a candidate is dropped, the placeholder dictionary, the context window and
-- the single checks. A check is `none` where it panics; otherwise it holds a reason to drop, or
-- none. `lower` stands for `str::to_lowercase`.
pub mod Checks
pub mod Judge
pub mod Window
pub mod Classes
pub mod Verdicts
pub mod Filters
use jiraleaks.Base.{
  ℕ, zero, suc, ◌+◌, ◌-◌, ◌*◌, ◌/◌, ◌%◌, ◌^◌, ◌≤◌, ◌<◌, min, max, Bool, true, false, not, ◌&&◌,
  ◌||◌, Option, none, some, List, [], ◌∷◌, ◌++◌, map, append_assoc, append-nil, ◌≡◌, ◌≢◌, ◌↔◌, ◌⊎◌,
  inl, inr, refl, sym, ap, ◌∙◌, subst, arith, ltb, leb, ◌==◌, if◌then◌else◌, Bool-cases,
  Option-cases, eq_of_==, ==_refl, &&-true, ||-true, ||-false, length, get_elem?, take, drop,
  is_empty, any, all, All, In, here, there, length-append, length-take-le, length-reverse, reverse,
  reverse-append, In-append_left, In-append_right, In-append_split, All-append, All-In, Text, codes,
  text_eq, eq_of_text_eq, text_eq_refl, text_eq_of_eq, text_eq_comm,
}
use jiraleaks.Text.Find.{starts_with, ends_with, contains}
use jiraleaks.Text.Bytes.{saturating_add, byte_len, floor_char_boundary, ceil_char_boundary, slice}
use jiraleaks.Redact.{Range}
use jiraleaks.Entropy.{Float, shannon}
use jiraleaks.Validators
use jiraleaks.Validators.{is_ascii_digit, is_ascii_uppercase, is_ascii_lowercase}
use jiraleaks.Finding.{Confidence}
use jiraleaks.Rule.{CompiledRule}

abbrev pub context_radius : ℕ
context_radius = 50

abbrev pub context_words : List Text
context_words =
    codes "secret"
    ∷ codes "key"
    ∷ codes "token"
    ∷ codes "password"
    ∷ codes "passwd"
    ∷ codes "pwd"
    ∷ codes "credential"
    ∷ codes "api_key"
    ∷ codes "apikey"
    ∷ codes "access_key"
    ∷ codes "private_key"
    ∷ []

-- The four character classes that a rule may require.
pub data CharClass : Type 0 where
  min_digits min_uppercase min_lowercase min_special_chars : CharClass

-- `F` is the type of `f64`.
pub data DropReason (F : Type 0) : Type 0 where
  too_short : (min got : ℕ) → DropReason F
  low_entropy : (min got : F) → DropReason F
  denylisted : DropReason F
  is_placeholder : DropReason F
  missing_char_class : (required : CharClass) (min got : ℕ) → DropReason F
  missing_context_keyword : DropReason F
  validator_rejected : DropReason F
  allowlisted : (reason : Option Text) → DropReason F
  below_min_confidence : (min got : Confidence) → DropReason F

pub data Verdict (F : Type 0) : Type 0 where
  keep : (confidence : Confidence) (boosted : Bool) → Verdict F
  dropped : DropReason F → Verdict F

pub record Candidate : Type 0 where
  pub value : Text
  pub text : Text
  pub value_span : Range
  pub field_path : Text
  pub issue_key : Text

pub data PlaceholderMode : Type 0 where
  by_substring by_equality : PlaceholderMode

pub record PlaceholderWord : Type 0 where
  pub word : Text
  pub in_contains : Bool
  pub in_exact : Bool

abbrev shared : Text → PlaceholderWord
shared word = record { word = word; in_contains = true; in_exact = true }

abbrev rules_only : Text → PlaceholderWord
rules_only word = record { word = word; in_contains = true; in_exact = false }

abbrev pair_only : Text → PlaceholderWord
pair_only word = record { word = word; in_contains = false; in_exact = true }

abbrev pub placeholder_words : List PlaceholderWord
placeholder_words =
    shared (codes "example")
    ∷ shared (codes "test")
    ∷ rules_only (codes "sample")
    ∷ rules_only (codes "demo")
    ∷ shared (codes "dummy")
    ∷ shared (codes "placeholder")
    ∷ shared (codes "changeme")
    ∷ rules_only (codes "your_key")
    ∷ rules_only (codes "yourkey")
    ∷ rules_only (codes "your-key")
    ∷ rules_only (codes "xxxx")
    ∷ rules_only (codes "foobar")
    ∷ shared (codes "redacted")
    ∷ rules_only (codes "fake")
    ∷ pair_only (codes "password")
    ∷ pair_only (codes "secret")
    ∷ pair_only (codes "your_secret_here")
    ∷ pair_only (codes "xxxxxx")
    ∷ []

abbrev pub applies_to : PlaceholderMode → PlaceholderWord → Bool
applies_to by_substring entry = entry.in_contains
applies_to by_equality entry = entry.in_exact

-- The words of a policy, in the order of the dictionary.
unfoldable pub words_from : PlaceholderMode → List PlaceholderWord → List Text
words_from mode [] = []
words_from mode (entry ∷ entries) =
    let rest = words_from mode entries in if applies_to mode entry then entry.word ∷ rest else rest

unfoldable pub words : PlaceholderMode → List Text
unfolding words_from
words mode = words_from mode placeholder_words

unfoldable pub is_template : Text → Bool
is_template value =
    starts_with value (codes "<") && ends_with value (codes ">")
    || starts_with value (codes "${") && ends_with value (codes "}")
    || starts_with value (codes "{{") && ends_with value (codes "}}")

-- The window of `text` around a span; `none` is a panic of the slice.
unfoldable pub context_window : Text → Range → ℕ → Option Text
context_window text span radius =
    let len = byte_len text in
    let start = floor_char_boundary text (min (span.start - radius) len) in
    let end = max (ceil_char_boundary text (min (saturating_add span.end radius) len)) start in
    slice text start end
