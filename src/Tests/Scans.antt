-- ===== src/Tests/Scans.antt =====
-- Runs of the model and instances of the theorems: rules, the scan of a text, and the segments.
use jiraleaks.Base.{
  ℕ, ◌≤◌, true, Option, none, some, List, [], ◌∷◌, ◌++◌, map, append-nil, ◌≡◌, ◌↔◌, ◌⊎◌, refl, sym,
  ap, arith, ltb, All, In, here, Text, codes,
}
use jiraleaks.Base.{ok}
use jiraleaks.Text.Bytes.{byte_len, floor_char_boundary, take_bytes}
use jiraleaks.Entropy.{Float}
use jiraleaks.Redact.{Range}
use jiraleaks.Rule.{Regex, Rule, CompiledRule, RawHit, Found, no_match, matched}
use jiraleaks.Rules.{eff_ignore, compiled_with, compile, from_rules, insert_rule, insert_rules, new}
use jiraleaks.Rules.Merge.{last_rule, written, IsSource, new-IsSource}
use jiraleaks.Rules.Scan.{scan}
use jiraleaks.Rules.Scan.Spans.{IsPart, IsSound}
use jiraleaks.Rules.Scan.Ends.{IsRunnable, AreHits, scan_total}
use jiraleaks.Candidate.Judge.{rule_validator}
use jiraleaks.Json.{Fields, string, array, object, no_values, value_then, no_fields, field_then}
use jiraleaks.Finding.{SourceType}
use jiraleaks.Extract.{
  TextSegment, classify_path, digits_from, decimal, at_key, at_index, max_bytes, truncate, segment,
  walk_value, extract,
}
use jiraleaks.Extract.Leaves.{FieldLeaf, IsOf, extract_iff, truncate_lem}

abbrev pub identity : Text → Text
identity s = s

-- Numbers in place of `f64`.
abbrev pub numbers : Float
numbers = record {
  F = ℕ;
  of_ℕ = λ n. n;
  div = λ a b. a;
  mul = λ a b. a;
  sub = λ a b. a;
  log2 = λ a. a;
  lt = ltb;
  entropy_boost_threshold = 3;
}

-- The pattern `.+` on texts of one line.
abbrev find_all : Text → Found
find_all [] = no_match
find_all (c ∷ s) = matched (record { start = 0; end = byte_len (c ∷ s) })

abbrev everything : Regex
everything = record { find = find_all; group = λ t n. none }

abbrev range_of : Found → Range
range_of (matched m) = m
range_of _ = record { start = 0; end = 0 }

whole-IsPart : (t : Text) (m : Range) → find_all t ≡ matched m → (v : Text) × IsPart t v m
unfolding byte_len
whole-IsPart [] m e = absurd (ground arith)
whole-IsPart (c ∷ s) m e = (
  c ∷ s,
  record {
    before = [];
    after = [];
    split = sym (append-nil (c ∷ s));
    start = sym (ap (λ f. (range_of f).start) e);
    end = sym (ap (λ f. (range_of f).end) e);
  },
)

pub everything-IsSound : IsSound everything
everything-IsSound = record { matches = whole-IsPart; groups = λ t n g e. absurd (ground arith) }

abbrev pub line_rule : CompiledRule ℕ
line_rule = record {
  rule_id = codes "line";
  description = [];
  severity = codes "high";
  confidence = codes "medium";
  regex = everything;
  capture_group = 0;
  min_length = none;
  min_entropy = none;
  context_keywords = [];
  denylist = [];
  validator = none;
  enabled = true;
  ignore_if_contains = [];
  min_digits = some 3;
  min_uppercase = none;
  min_lowercase = none;
  min_special_chars = none;
  special_chars = [];
  examples = [];
  references = [];
}

pub line_rule-IsRunnable : All (IsRunnable numbers identity) (line_rule ∷ [])
unfolding rule_validator
line_rule-IsRunnable = (record { sound = everything-IsSound; validates = λ value. (_, refl) }, tt)

scan_total_example :
    (hits : List RawHit) × (scan numbers identity (line_rule ∷ []) (codes "x123y") (codes "summary")
      ≡ some hits)
    × AreHits numbers identity (codes "x123y") (codes "summary") (line_rule ∷ []) hits
scan_total_example =
    scan_total numbers identity (line_rule ∷ []) (codes "x123y") (codes "summary")
      line_rule-IsRunnable

abbrev rule_of : Text → Rule ℕ
rule_of description = record {
  rule_id = codes "line";
  description = description;
  severity = codes "high";
  confidence = codes "medium";
  regex = codes ".+";
  capture_group = none;
  min_length = none;
  min_entropy = none;
  context_keywords = [];
  denylist = [];
  validator = none;
  enabled = true;
  ignore_if_contains = [];
  min_digits = some 3;
  min_uppercase = none;
  min_lowercase = none;
  min_special_chars = none;
  special_chars = [];
  disable_default_placeholders = true;
  examples = [];
  references = [];
}

abbrev build : Text → Option Regex
build pattern = some everything

abbrev built_in : List (Rule ℕ)
built_in = rule_of (codes "built in") ∷ []

abbrev own : Option (List (Rule ℕ))
own = some (rule_of (codes "own") ∷ [])

abbrev running : CompiledRule ℕ
running = record line_rule { description = codes "own" }

-- The rule of the user is the one that runs.
own_runs : new build built_in own ≡ ok (running ∷ [])
unfolding new insert_rules insert_rule from_rules compile compiled_with eff_ignore
own_runs = refl

new-IsSource_example :
    (r : Rule ℕ) × (last_rule build r.rule_id (built_in ++ written own) ≡ some r)
    × IsSource build running r
new-IsSource_example = new-IsSource build built_in own (running ∷ []) running own_runs here

abbrev fields : Fields
fields =
    field_then (codes "summary") (string (codes "a secret"))
      (field_then (codes "labels") (array (value_then (string (codes "one")) no_values)) no_fields)

paths :
    map (λ (x : TextSegment). x.field_path) (extract 1 (object fields))
    ≡ codes "summary" ∷ codes "labels[0]" ∷ []
unfolding extract walk_value segment classify_path at_key at_index decimal digits_from truncate
paths = refl

abbrev first : TextSegment
first = record {
  field_path = codes "summary";
  text = codes "a secret";
  source_type = SourceType.custom_field;
}

extract_iff_example : In first (extract 1 (object fields)) ↔ IsOf 1 (FieldLeaf [] fields) first
extract_iff_example = extract_iff 1 fields first

truncate_lem_example :
    (byte_len (truncate 0 (codes "ab")) ≤ max_bytes 0)
    × ((truncate 0 (codes "ab") ≡ codes "ab")
        ⊎ (take_bytes (codes "ab") (floor_char_boundary (codes "ab") (max_bytes 0))
            ≡ some (truncate 0 (codes "ab"))))
truncate_lem_example = truncate_lem 0 (codes "ab")
