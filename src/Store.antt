-- ===== src/Store.antt =====
-- src/store.rs: the rows of the findings store, their text forms, and the statements on the table.
-- The table `findings` of migrations/0001_init.sql is a list of rows with the primary key
-- `fingerprint`. The parameters are `digest`, `Sha256::digest`, and the two writers of JSON.
pub mod Table
pub mod Names
pub mod Written
pub mod Outcome
pub mod Report
pub mod Agree
use jiraleaks.Base.{
  ℕ, zero, suc, ◌+◌, ◌-◌, ◌*◌, ◌/◌, ◌%◌, ◌^◌, ◌≤◌, ◌<◌, min, max, Bool, true, false, not, ◌&&◌,
  ◌||◌, Option, none, some, List, [], ◌∷◌, ◌++◌, map, append_assoc, append-nil, ◌≡◌, ◌≢◌, ◌↔◌, ◌⊎◌,
  inl, inr, refl, sym, ap, ◌∙◌, subst, arith, ltb, leb, ◌==◌, if◌then◌else◌, Bool-cases,
  Option-cases, eq_of_==, ==_refl, &&-true, ||-true, ||-false, length, get_elem?, take, drop,
  is_empty, any, all, All, In, here, there, length-append, length-take-le, length-reverse, reverse,
  reverse-append, In-append_left, In-append_right, In-append_split, All-append, All-In, Text, codes,
  text_eq, eq_of_text_eq, text_eq_refl, text_eq_of_eq, text_eq_comm, if_intro,
}
use jiraleaks.Finding.{
  Severity, Confidence, SourceType, Location, Finding, FindingKey, fingerprint, location_key,
  effective_locations,
}

unfoldable pub severity_to_str : Severity → Text
severity_to_str Severity.critical = codes "critical"
severity_to_str Severity.high = codes "high"
severity_to_str Severity.medium = codes "medium"
severity_to_str Severity.low = codes "low"
severity_to_str Severity.info = codes "info"

unfoldable pub str_to_severity : Text → Severity
str_to_severity s =
    if text_eq s (codes "critical")
    then Severity.critical
    else if text_eq s (codes "high")
    then Severity.high
    else if text_eq s (codes "medium")
    then Severity.medium
    else if text_eq s (codes "low")
    then Severity.low
    else Severity.info

unfoldable pub confidence_to_str : Confidence → Text
confidence_to_str Confidence.high = codes "high"
confidence_to_str Confidence.medium = codes "medium"
confidence_to_str Confidence.low = codes "low"

unfoldable pub str_to_confidence : Text → Confidence
str_to_confidence s =
    if text_eq s (codes "high")
    then Confidence.high
    else if text_eq s (codes "medium")
    then Confidence.medium
    else Confidence.low

unfoldable pub source_type_to_str : SourceType → Text
source_type_to_str SourceType.description = codes "description"
source_type_to_str SourceType.comment = codes "comment"
source_type_to_str SourceType.attachment = codes "attachment"
source_type_to_str SourceType.custom_field = codes "customfield"

unfoldable pub str_to_source_type : Text → SourceType
str_to_source_type s =
    if text_eq s (codes "comment")
    then SourceType.comment
    else if text_eq s (codes "attachment")
    then SourceType.attachment
    else if text_eq s (codes "customfield")
    then SourceType.custom_field
    else SourceType.description

-- A row of the table: the struct of the source, and the columns `closed_at` and `scan_id_last`, which
-- `reconcile` writes but does not read back.
pub record StoredRow : Type 0 where
  pub fp : Text
  pub secret_hash : Text
  pub rule_id : Text
  pub issue_key : Text
  pub issue_url : Text
  pub severity : Text
  pub confidence : Text
  pub status : Text
  pub field_path : Text
  pub source_type : Text
  pub redacted_secret : Text
  pub snippet : Text
  pub locations_json : Text
  pub references_json : Text
  pub username : Option Text
  pub first_seen : Text
  pub last_seen : Text
  pub closed_at : Option Text
  pub times_seen : ℕ
  pub scan_id_last : Text

pub record Exp : Type 0 where
  pub fp : Text
  pub secret_hash : Text
  pub rule_id : Text
  pub issue_key : Text
  pub issue_url : Text
  pub field_path : Text
  pub source_type : Text
  pub severity : Text
  pub confidence : Text
  pub redacted_secret : Text
  pub snippet : Text
  pub locations_json : Text
  pub references_json : Text
  pub username : Option Text

-- `HashSet::contains`, `Vec::contains`.
abbrev pub contains_text : List Text → Text → Bool
contains_text keys k = any (text_eq k) keys

module _ (digest : Text → List ℕ) (locations_json : List Location → Text)
    (references_json : List Text → Text) where
  unfoldable pub expand_location : Finding → Location → Exp
  unfolding severity_to_str confidence_to_str source_type_to_str
  expand_location f loc = record {
    fp = fingerprint digest (location_key f loc);
    secret_hash = f.secret_hash;
    rule_id = f.rule_id;
    issue_key = loc.issue_key;
    issue_url = f.issue_url;
    field_path = loc.field_path;
    source_type = source_type_to_str loc.source_type;
    severity = severity_to_str f.severity;
    confidence = confidence_to_str f.confidence;
    redacted_secret = f.redacted_secret;
    snippet = f.snippet;
    locations_json = locations_json (loc ∷ []);
    references_json = references_json f.references;
    username = f.username;
  }

  unfoldable pub expand : List Finding → List Exp
  unfolding expand_location
  expand [] = []
  expand (f ∷ current) = map (expand_location f) (effective_locations f) ++ expand current

-- The row that the statement `INSERT` writes.
abbrev pub inserted : Exp → (now scan_id : Text) → StoredRow
inserted e now scan_id = record {
  fp = e.fp;
  secret_hash = e.secret_hash;
  rule_id = e.rule_id;
  issue_key = e.issue_key;
  issue_url = e.issue_url;
  severity = e.severity;
  confidence = e.confidence;
  status = codes "new";
  field_path = e.field_path;
  source_type = e.source_type;
  redacted_secret = e.redacted_secret;
  snippet = e.snippet;
  locations_json = e.locations_json;
  references_json = e.references_json;
  username = e.username;
  first_seen = now;
  last_seen = now;
  closed_at = none;
  times_seen = 1;
  scan_id_last = scan_id;
}

-- `ON CONFLICT(fingerprint) DO UPDATE`.
abbrev pub updated : StoredRow → Exp → (now scan_id : Text) → StoredRow
updated r e now scan_id = record r {
  issue_url = e.issue_url;
  severity = e.severity;
  confidence = e.confidence;
  status = codes "recurring";
  field_path = e.field_path;
  source_type = e.source_type;
  redacted_secret = e.redacted_secret;
  snippet = e.snippet;
  locations_json = e.locations_json;
  references_json = e.references_json;
  username = e.username;
  last_seen = now;
  closed_at = none;
  times_seen = r.times_seen + 1;
  scan_id_last = scan_id;
}

unfoldable pub upsert : Exp → (now scan_id : Text) → List StoredRow → List StoredRow
upsert e now scan_id [] = inserted e now scan_id ∷ []
upsert e now scan_id (r ∷ rows) =
    let rest = upsert e now scan_id rows in
    if text_eq r.fp e.fp then updated r e now scan_id ∷ rows else r ∷ rest

unfoldable pub upsert_all : List Exp → (now scan_id : Text) → List StoredRow → List StoredRow
unfolding upsert
upsert_all [] now scan_id rows = rows
upsert_all (e ∷ exps) now scan_id rows = upsert_all exps now scan_id (upsert e now scan_id rows)

abbrev pub closed_row : (now scan_id : Text) → StoredRow → StoredRow
closed_row now scan_id r = record r {
  status = codes "closed";
  closed_at = some now;
  last_seen = now;
  scan_id_last = scan_id;
}

-- `UPDATE findings SET status = 'closed' … WHERE fingerprint = fp`.
unfoldable pub close : Text → (now scan_id : Text) → List StoredRow → List StoredRow
close fp now scan_id [] = []
close fp now scan_id (r ∷ rows) =
    (if text_eq r.fp fp then closed_row now scan_id r else r) ∷ close fp now scan_id rows

-- The condition under which a stored row is closed and reported as closed.
abbrev pub is_vanished : (scanned current_fps : List Text) → StoredRow → Bool
is_vanished scanned current_fps s =
    contains_text scanned s.issue_key
    && not (contains_text current_fps s.fp)
    && not (text_eq s.status (codes "closed"))

-- The loop that closes, over the rows that were read.
unfoldable pub close_all :
    (scanned current_fps : List Text)
    → (now scan_id : Text) → List StoredRow
    → List StoredRow
    → List StoredRow
unfolding close
close_all scanned current_fps now scan_id [] rows = rows
close_all scanned current_fps now scan_id (s ∷ stored) rows =
    close_all scanned current_fps now scan_id stored
      (if is_vanished scanned current_fps s then close s.fp now scan_id rows else rows)

-- `SELECT … FROM findings WHERE issue_key IN (…)`.
unfoldable pub select_scanned : List Text → List StoredRow → List StoredRow
select_scanned scanned [] = []
select_scanned scanned (r ∷ rows) =
    if contains_text scanned r.issue_key
    then r ∷ select_scanned scanned rows
    else select_scanned scanned rows

abbrev pub fp_of : Exp → Text
fp_of e = e.fp

-- The transaction: the rows after the scan.
unfoldable pub write_rows :
    (scanned : List Text) → List Exp → (now scan_id : Text) → List StoredRow → List StoredRow
unfolding close_all upsert_all select_scanned
write_rows scanned exps now scan_id rows =
    upsert_all exps now scan_id
      (close_all scanned (map fp_of exps) now scan_id (select_scanned scanned rows) rows)
