-- ===== src/Tests/Filters.antt =====
-- Runs of the model and instances of the theorems: the filters.
use jiraleaks.Base.{
  ℕ, ◌+◌, ◌-◌, ◌≤◌, ◌<◌, min, true, false, Option, none, some, List, [], ◌∷◌, ◌++◌, ◌≡◌, ◌↔◌, ◌⊎◌,
  refl, arith, ltb, Text, codes, text_eq,
}
use jiraleaks.Text.Bytes.{
  as_bytes, byte_len, len_utf8, saturating_add, floor_char_boundary, ceil_char_boundary, take_bytes,
  drop_bytes, slice,
}
use jiraleaks.Redact.{Range}
use jiraleaks.Hash.{secret_hash}
use jiraleaks.Entropy.{Float, shannon, entropy_from, frequencies, bump}
use jiraleaks.Base.{Bool}
use jiraleaks.Validators.{validate, crc32}
use jiraleaks.Validators.Base62.{base62_value}
use jiraleaks.Validators.Tokens.{validate_github_token_panics, validate_github_token_total}
use jiraleaks.Rule.{Regex, CompiledRule, Found}
use jiraleaks.Finding.{Confidence, confidence_rank, adjust_confidence}
use jiraleaks.Candidate.{
  Candidate, keep, context_window, words, words_from, is_template, PlaceholderMode,
}
use jiraleaks.Candidate.Checks.{placeholder_matches, has_context_word}
use jiraleaks.Candidate.Judge.{finalize, rule_filters, passed}
use jiraleaks.Candidate.Window.{context_window_covers}
use jiraleaks.Candidate.Verdicts.{finalize-keep}
use jiraleaks.Candidate.Filters.{Accepts, rule_filters-passed_iff}
use jiraleaks.Allowlist.{
  Search, AllowlistEntry, AllowlistFilter, ok, from_entries, load_from, compile, compile_pattern,
  compile_sha256, required_non_empty, ◌>>=◌, normalize_sha256, bare, field_scope_matches, check,
  check_entries,
}
use jiraleaks.Allowlist.Digest.{normalize_sha256-secret_hash}
use jiraleaks.Allowlist.Scope.{InScope, field_scope_matches_iff}
use jiraleaks.Allowlist.Check.{check-loaded}
use jiraleaks.Text.Space.{trim, trim_start, trim_end, is_whitespace}

abbrev identity : Text → Text
identity s = s

-- Numbers in place of `f64`.
abbrev numbers : Float
numbers = record {
  F = ℕ;
  of_ℕ = λ n. n;
  div = λ a b. a;
  mul = λ a b. a;
  sub = λ a b. a;
  log2 = λ a. a;
  lt = ltb;
  entropy_boost_threshold = 3;
}

abbrev literal : Regex
literal = record { find = λ t. Found.no_match; group = λ t n. none }

abbrev digits_rule : CompiledRule ℕ
digits_rule = record {
  rule_id = codes "digits";
  description = [];
  severity = codes "high";
  confidence = codes "medium";
  regex = literal;
  capture_group = 0;
  min_length = none;
  min_entropy = none;
  context_keywords = [];
  denylist = [];
  validator = none;
  enabled = true;
  ignore_if_contains = [];
  min_digits = some 3;
  min_uppercase = none;
  min_lowercase = none;
  min_special_chars = none;
  special_chars = [];
  examples = [];
  references = [];
}

abbrev range : Range
range = record { start = 2; end = 5 }

context_window_covers_example :
    (w : Text) × (a : Text) × (b : Text) × (context_window (codes "a=x1y rest") range 1 ≡ some w)
    × (codes "a=x1y rest" ≡ (a ++ w) ++ b)
    × (byte_len a ≤ range.start - 1)
    × (min (saturating_add range.end 1) (byte_len (codes "a=x1y rest")) ≤ byte_len (a ++ w))
context_window_covers_example = context_window_covers (codes "a=x1y rest") range 1

abbrev cand : Candidate
cand = record {
  value = codes "x1y";
  text = codes "a=x1y rest";
  value_span = range;
  field_path = codes "description";
  issue_key = codes "SEC-1";
}

rule_filters-passed_iff_example :
    (rule_filters numbers identity digits_rule cand ≡ some passed)
    ↔ Accepts numbers identity digits_rule cand
rule_filters-passed_iff_example = rule_filters-passed_iff numbers identity digits_rule cand

long : 7 ≤ len_utf8 0x20ac + byte_len (codes "abcd")
unfolding len_utf8 byte_len
long = omega arith

short : byte_len (codes "abcd") < 6
unfolding byte_len len_utf8
short = omega arith

validate_github_token_panics_example :
    validate (codes "github_token_checksum") (codes "ghp_" ++ 0x20ac ∷ codes "abcd") ≡ none
validate_github_token_panics_example = validate_github_token_panics 0x20ac (codes "abcd") long short

six : byte_len (codes "000000") ≡ 6
unfolding byte_len len_utf8
six = refl

some_body : 0 < byte_len (codes "body")
unfolding byte_len len_utf8
some_body = omega arith

validate_github_token_total_example :
    (accepted : Bool) × (validate
        (codes "github_token_checksum")
        (codes "ghp_" ++ (codes "body" ++ codes "000000"))
      ≡ some accepted)
    × ((accepted ≡ true) ↔ (base62_value (codes "000000") ≡ some (crc32 (as_bytes (codes "body")))))
validate_github_token_total_example =
    validate_github_token_total (codes "body") (codes "000000") six some_body

kept :
    finalize numbers identity Confidence.high cand none Confidence.low
    ≡ some (keep Confidence.medium false)
unfolding finalize has_context_word context_window shannon frequencies placeholder_matches words
    words_from is_template slice adjust_confidence byte_len len_utf8 floor_char_boundary
    ceil_char_boundary take_bytes drop_bytes entropy_from bump
kept = refl

finalize-keep_example :
    (◌≡◌ {A = Option (Option Text)} none none)
    × (confidence_rank Confidence.low ≤ confidence_rank Confidence.medium)
    × ((placeholder_matches identity PlaceholderMode.by_equality cand.value ≡ false)
        ⊎ (Confidence.medium ≡ Confidence.low))
finalize-keep_example =
    finalize-keep numbers identity Confidence.high cand none Confidence.low Confidence.medium false
      kept

field_scope_matches_iff_example :
    (field_scope_matches (codes "comment") (codes "comment[1].body") ≡ true)
    ↔ InScope (codes "comment") (codes "comment[1].body")
field_scope_matches_iff_example =
    field_scope_matches_iff (codes "comment") (codes "comment[1].body")

abbrev entry : AllowlistEntry
entry = record {
  value = some (codes "example");
  sha256 = none;
  pattern = none;
  project_key = none;
  issue_key = none;
  rule_id = none;
  field = some (codes "description");
  reason = none;
}

abbrev build : Text → Option Search
build source = some (λ value. some (text_eq source value))

abbrev digest : Text → List ℕ
digest s =
    7 ∷ 7 ∷ 7 ∷ 7 ∷ 7 ∷ 7 ∷ 7 ∷ 7 ∷ 7 ∷ 7 ∷ 7 ∷ 7 ∷ 7 ∷ 7 ∷ 7 ∷ 7 ∷ 7 ∷ 7 ∷ 7 ∷ 7 ∷ 7 ∷ 7 ∷ 7 ∷ 7
    ∷ 7 ∷ 7 ∷ 7 ∷ 7 ∷ 7 ∷ 7 ∷ 7 ∷ 200 ∷ []

abbrev filter : AllowlistFilter
filter = record {
  entries =
      record {
        field = some (codes "description");
        value = some (codes "example");
        sha256 = none;
        pattern = none;
        project_key = none;
        issue_key = none;
        rule_id = none;
        reason = none;
      }
      ∷ [];
  has_hashes = false;
}

loaded : from_entries build (entry ∷ []) ≡ ok filter
unfolding from_entries load_from compile compile_pattern compile_sha256 required_non_empty ◌>>=◌
    trim trim_start trim_end is_whitespace
loaded = refl

check-loaded_example :
    check digest filter (codes "example") (codes "pw") (codes "SEC-1") (codes "description")
    ≡ check_entries filter.entries
        (codes "example")
        (some (bare (secret_hash digest (codes "example"))))
        (codes "pw")
        (codes "SEC-1")
        (codes "description")
check-loaded_example =
    check-loaded digest build (entry ∷ []) filter (codes "example") (codes "pw") (codes "SEC-1")
      (codes "description") loaded

normalize_sha256-secret_hash_example :
    normalize_sha256 (secret_hash digest (codes "example"))
    ≡ some (bare (secret_hash digest (codes "example")))
normalize_sha256-secret_hash_example =
    normalize_sha256-secret_hash digest (codes "example") refl (ground arith)
