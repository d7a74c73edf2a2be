-- ===== src/Rule.antt =====
-- The data of src/rules.rs. A regular expression of the crate `fancy_regex` is a parameter: the
-- functions that the engine calls on it, with offsets in bytes.
use jiraleaks.Base.{ℕ, Bool, Option, List, Text}
use jiraleaks.Redact.{Range}

-- What `find` returns: an error, no match, or the span of the first match.
pub data Found : Type 0 where
  failed : Found
  no_match : Found
  matched : Range → Found

pub record Regex : Type 0 where
  pub find : Text → Found
  -- `captures(text)`, with errors and missing groups as `none`.
  pub group : Text → ℕ → Option Range

-- A rule as it is written in a rules file, its defaults filled in. `F` is the type of `f64`.
pub record Rule (F : Type 0) : Type 0 where
  pub rule_id : Text
  pub description : Text
  pub severity : Text
  pub confidence : Text
  pub regex : Text
  pub capture_group : Option ℕ
  pub min_length : Option ℕ
  pub min_entropy : Option F
  pub context_keywords : List Text
  pub denylist : List Text
  pub validator : Option Text
  pub enabled : Bool
  pub ignore_if_contains : List Text
  pub min_digits : Option ℕ
  pub min_uppercase : Option ℕ
  pub min_lowercase : Option ℕ
  pub min_special_chars : Option ℕ
  pub special_chars : Text
  pub disable_default_placeholders : Bool
  pub examples : List Text
  pub references : List Text

pub record CompiledRule (F : Type 0) : Type 0 where
  pub rule_id : Text
  pub description : Text
  pub severity : Text
  pub confidence : Text
  pub regex : Regex
  pub capture_group : ℕ
  pub min_length : Option ℕ
  pub min_entropy : Option F
  pub context_keywords : List Text
  pub denylist : List Text
  pub validator : Option Text
  pub enabled : Bool
  pub ignore_if_contains : List Text
  pub min_digits : Option ℕ
  pub min_uppercase : Option ℕ
  pub min_lowercase : Option ℕ
  pub min_special_chars : Option ℕ
  pub special_chars : List ℕ
  pub examples : List Text
  pub references : List Text

pub record RawHit : Type 0 where
  pub rule_id : Text
  pub severity : Text
  pub confidence : Text
  pub matched_value : Text
  pub match_span : Range
  pub snippet_span : Range
  pub snippet : Text
  pub field_path : Text
  pub references : List Text
