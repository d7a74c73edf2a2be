-- ===== src/Store/Report.antt =====
-- src/store.rs: the report of a scan, and the whole of `reconcile`. Beside the parameters of the
-- rows: `parse_locations` and `parse_references` read JSON, `uuid` gives the identifier drawn for a
-- closed row, and `version` is the version of the crate. The rows are read in the order of the
-- table. Failures of the database, which roll the transaction back, are not modelled, and the
-- sums in 32 bits wrap as in a release build.
use jiraleaks.Base.{
  ℕ, ◌+◌, ◌%◌, ◌^◌, Bool, true, false, ◌&&◌, ◌||◌, Option, none, some, List, [], ◌∷◌, ◌++◌, map,
  ltb, ◌==◌, if◌then◌else◌, Text, text_eq,
}
use jiraleaks.Finding.{
  Severity, Confidence, FindingStatus, Location, ExternalValidation, Finding, FindingKey,
  fingerprint, location_keys,
}
use jiraleaks.Store.{
  StoredRow, str_to_severity, str_to_confidence, str_to_source_type, contains_text, expand,
  is_vanished, select_scanned, fp_of, write_rows,
}
use jiraleaks.Store.Table.{find_row}

-- A row of `live_validations`, by its primary key `secret_hash`.
pub record LiveRow : Type 0 where
  pub secret_hash : Text
  pub valid : Bool
  pub checked_at : Text
  pub source : Text

pub record FindingsStore : Type 0 where
  pub findings : List StoredRow
  pub live_validations : List LiveRow

-- `live_map.get`, over the rows that were selected for the hashes of the scan.
unfoldable pub live_get : (hashes : List Text) → List LiveRow → Text → Option ExternalValidation
live_get hashes [] hash = none
live_get hashes (v ∷ rows) hash =
    let rest = live_get hashes rows hash in
    if contains_text hashes v.secret_hash && text_eq v.secret_hash hash
    then some (record { valid = v.valid; source = v.source; checked_at = v.checked_at })
    else rest

-- `<` on strings.
abbrev pub text_lt : Text → Text → Bool
text_lt s [] = false
text_lt [] (d ∷ t) = true
text_lt (c ∷ s) (d ∷ t) = ltb c d || c == d && text_lt s t

abbrev pub earlier : Text → Option Text → Text
earlier first_seen none = first_seen
earlier first_seen (some current) = if text_lt first_seen current then first_seen else current

abbrev pub seen_at : (now : Text) → Option StoredRow → Text × ℕ
seen_at now (some s) = (s.first_seen, (s.times_seen + 1) % 2 ^ 32)
seen_at now none = (now, 1)

-- The loop over the keys of a finding: the least first time and the sum of the counts.
unfoldable pub seen_over :
    (digest : Text → List ℕ) (stored : List StoredRow) (now : Text)
    → List FindingKey
    → Option Text
    → ℕ
    → Option Text × ℕ
seen_over digest stored now [] first_seen_min times_sum = (first_seen_min, times_sum)
seen_over digest stored now (k ∷ keys) first_seen_min times_sum =
    let (first_seen, times) = seen_at now (find_row (fingerprint digest k) stored) in
    seen_over digest stored now keys (some (earlier first_seen first_seen_min))
      ((times_sum + times) % 2 ^ 32)

abbrev pub or_else : Option Text → Text → Text
or_else none now = now
or_else (some t) now = t

unfoldable pub with_validation : Option ExternalValidation → Finding → Finding
with_validation none f = f
with_validation (some ev) f =
    if ev.valid
    then record f {
      severity = Severity.critical;
      confidence = Confidence.high;
      external_validation = some ev;
    }
    else record f { external_validation = some ev }

unfoldable pub enrich :
    (digest : Text → List ℕ) (stored : List StoredRow) (live : Text → Option ExternalValidation)
    (now scan_started_at : Text)
    → Finding
    → Finding
unfolding seen_over with_validation
enrich digest stored live now scan_started_at f =
    let (first_seen_min, times_sum) = seen_over digest stored now (location_keys f) none 0 in
    let first_seen = or_else first_seen_min now in
    let seen : Finding = record f {
      status =
          (if text_lt first_seen scan_started_at
            then FindingStatus.recurring
            else FindingStatus.new);
      first_seen = some first_seen;
      times_seen = some times_sum;
    } in
    with_validation (live f.secret_hash) seen

abbrev pub or_default {ℓ} : {A : Type ℓ} → Option (List A) → List A
or_default none = []
or_default (some xs) = xs

module _ (parse_locations : Text → Option (List Location))
    (parse_references : Text → Option (List Text)) (uuid : StoredRow → Text) (version : Text) where
  unfoldable pub closed_finding : (live : Text → Option ExternalValidation) → StoredRow → Finding
  closed_finding live s = record {
    finding_id = uuid s;
    issue_key = s.issue_key;
    issue_url = s.issue_url;
    field_path = s.field_path;
    rule_id = s.rule_id;
    severity = str_to_severity s.severity;
    confidence = str_to_confidence s.confidence;
    redacted_secret = s.redacted_secret;
    secret_hash = s.secret_hash;
    snippet = s.snippet;
    detected_at = s.last_seen;
    scanner_version = version;
    locations = or_default (parse_locations s.locations_json);
    source_type = str_to_source_type s.source_type;
    status = FindingStatus.closed;
    username = s.username;
    references = or_default (parse_references s.references_json);
    first_seen = some s.first_seen;
    times_seen = some (s.times_seen % 2 ^ 32);
    external_validation = live s.secret_hash;
  }

  unfoldable pub closed_findings :
      (scanned current_fps : List Text) (live : Text → Option ExternalValidation)
      → List StoredRow
      → List Finding
  unfolding closed_finding
  closed_findings scanned current_fps live [] = []
  closed_findings scanned current_fps live (s ∷ stored) =
      let rest = closed_findings scanned current_fps live stored in
      if is_vanished scanned current_fps s then closed_finding live s ∷ rest else rest

  unfoldable pub reconcile :
      (digest : Text → List ℕ) (locations_json : List Location → Text)
      (references_json : List Text → Text) (now : Text)
      → FindingsStore
      → List Finding
      → (scanned : List Text) (scan_id scan_started_at : Text) → FindingsStore × List Finding
  unfolding expand enrich closed_findings write_rows select_scanned live_get
  reconcile digest locations_json references_json now store current scanned scan_id
        scan_started_at =
      let exps = expand digest locations_json references_json current in
      let stored = select_scanned scanned store.findings in
      let live = live_get (map (λ (f : Finding). f.secret_hash) current) store.live_validations in
      (
        record store { findings = write_rows scanned exps now scan_id store.findings },
        map (enrich digest stored live now scan_started_at) current
            ++ closed_findings scanned (map fp_of exps) live stored,
      )
