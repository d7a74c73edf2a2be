-- ===== src/Tests/Findings.antt =====
-- Runs of the model and instances of the theorems: the redaction and the identity of findings.
use jiraleaks.Base.{
  ℕ, ◌-◌, ◌%◌, ◌≤◌, ◌<◌, false, none, some, List, [], ◌∷◌, ◌++◌, ◌≡◌, ◌⊎◌, inr, refl, arith, length,
  take, drop, All, here, Text, codes,
}
use jiraleaks.Text.Find.{contains, replace}
use jiraleaks.Text.Bytes.{byte_len, floor_char_boundary, ceil_char_boundary, take_bytes, drop_bytes}
use jiraleaks.Redact.{
  Range, redact, marker_for, mask_all, clamp_span, splice, enforce_absent, mask_span,
  redact_snippet, mask_others, redact_snippet_with,
}
use jiraleaks.Redact.Preview.{redact_hides}
use jiraleaks.Redact.Absent.{IsMaskable, Foreign, redact_snippet_absent, redact_snippet_with_absent}
use jiraleaks.Finding.{
  Finding, FindingKey, MergeKey, Location, Severity, Confidence, SourceType, FindingStatus,
}
use jiraleaks.Finding.Keys.{fingerprint-injective}
use jiraleaks.Dedup.{Deduplicator, new, insert_all}
use jiraleaks.Dedup.Merged.{DistinctKeys, names, insert_all-names}

abbrev secret : Text
secret = codes "hunter2secret"

abbrev neighbour : Text
neighbour = codes "abcd1234"

abbrev snippet : Text
snippet = codes "a=hunter2secret b=abcd1234"

abbrev span : Range
span = record { start = 2; end = 15 }

runs : Unit {0}
unfolding redact marker_for mask_all clamp_span splice enforce_absent mask_span redact_snippet
    mask_others redact_snippet_with replace byte_len floor_char_boundary ceil_char_boundary
    take_bytes drop_bytes
runs = tt

secret-IsMaskable : IsMaskable secret
secret-IsMaskable = record {
  present = cc;
  no_open = ground arith;
  no_close = ground arith;
  own = refl;
}

masked : redact_snippet snippet secret span (codes "pw") ≡ some (codes "a=[REDACTED:pw] b=abcd1234")
unfolding runs
masked = refl

-- A secret that begins with a bracket comes up again behind the marker that replaces it.
comes_up_again :
    redact_snippet (codes "]a ]aa") (codes "]a") (record { start = 0; end = 2 }) (codes "r")
    ≡ some (codes "[REDACTED:r] [REDACTED:r]a")
unfolding runs
comes_up_again = refl

-- Two secrets, each the rule id of the other: the sweep for the second brings the first up again.
comes_up_in_marker :
    redact_snippet_with
      (codes "alpha")
      (codes "alpha")
      (record { start = 0; end = 5 })
      (codes "beta")
      ((codes "beta", codes "alpha") ∷ [])
    ≡ some (codes "[REDACTED:[REDACTED:[REDACTED:[REDACTED:alpha]]]]")
unfolding runs
comes_up_in_marker = refl

redact_hides_example :
    ((length secret < 8) × (redact secret ≡ codes "[REDACTED]"))
    ⊎ ((8 ≤ length secret)
        × (redact secret ≡ take 2 secret ++ (codes "..." ++ drop (length secret - 2) secret))
        × (contains (redact secret) secret ≡ false))
redact_hides_example = redact_hides secret

redact_snippet_absent_example :
    (out : Text) × (redact_snippet snippet secret span (codes "pw") ≡ some out)
    × (contains out secret ≡ false)
redact_snippet_absent_example =
    redact_snippet_absent snippet secret span (codes "pw") secret-IsMaskable

neighbour-IsMaskable : IsMaskable neighbour
neighbour-IsMaskable = record {
  present = cc;
  no_open = ground arith;
  no_close = ground arith;
  own = refl;
}

neighbours : All (Foreign secret) ((secret, codes "pw") ∷ (neighbour, codes "db") ∷ [])
unfolding marker_for
neighbours = (inr (secret-IsMaskable, refl), (inr (neighbour-IsMaskable, refl), tt))

redact_snippet_with_absent_example :
    (out : Text) × (redact_snippet_with snippet secret span
        (codes "pw")
        ((neighbour, codes "db") ∷ [])
      ≡ some out)
    × (contains out secret ≡ false)
redact_snippet_with_absent_example =
    redact_snippet_with_absent snippet secret span (codes "pw") ((neighbour, codes "db") ∷ [])
      secret (codes "pw") here secret-IsMaskable neighbours

-- A digest for the examples: one byte, the length.
abbrev digest : Text → List ℕ
digest s = (length s % 256) ∷ []

abbrev row : FindingKey
row = record { secret_hash = codes "sha256:00"; rule_id = codes "pw"; issue_key = codes "SEC-1" }

fingerprint-injective_example : row ≡ row
fingerprint-injective_example =
    fingerprint-injective digest row row (ground arith, ground arith) (ground arith, ground arith)
      (omega arith) (omega arith) (λ _. refl) refl

abbrev merged : MergeKey
merged = record { secret_hash = codes "sha256:00"; rule_id = codes "a:b" }

abbrev identity : Text → Text
identity s = s

abbrev place : Text → Location
place key = record {
  issue_key = key;
  field_path = codes "description";
  source_type = SourceType.description;
}

abbrev pub found : Text → Text → Finding
found rule issue = record {
  finding_id = [];
  issue_key = issue;
  issue_url = [];
  field_path = codes "description";
  rule_id = rule;
  severity = Severity.high;
  confidence = Confidence.high;
  redacted_secret = [];
  secret_hash = codes "sha256:00";
  snippet = [];
  detected_at = [];
  scanner_version = [];
  locations = place issue ∷ [];
  source_type = SourceType.description;
  status = FindingStatus.new;
  username = none;
  references = [];
  first_seen = none;
  times_seen = none;
  external_validation = none;
}

abbrev three : List Finding
three =
    found (codes "pw") (codes "SEC-1")
    ∷ found (codes "pw") (codes "SEC-2")
    ∷ found (codes "db") (codes "SEC-1")
    ∷ []

insert_all-names_example :
    (d : Deduplicator) × (insert_all three new ≡ some d)
    × DistinctKeys d.findings
    × (names (codes "sha256:00:pw") (place (codes "SEC-2")) d.findings
        ≡ names (codes "sha256:00:pw") (place (codes "SEC-2")) three)
insert_all-names_example = insert_all-names three (codes "sha256:00:pw") (place (codes "SEC-2"))
