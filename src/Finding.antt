-- ===== src/Finding.antt =====
-- src/finding.rs: severities, confidences, findings and their identities. `lower` stands for
-- `str::to_lowercase`, whose tables are those of the Unicode version of the standard library.
pub mod Names
pub mod Keys
use jiraleaks.Base.{
  ℕ, zero, suc, ◌+◌, ◌-◌, ◌*◌, ◌/◌, ◌%◌, ◌^◌, ◌≤◌, ◌<◌, min, max, Bool, true, false, not, ◌&&◌,
  ◌||◌, Option, none, some, List, [], ◌∷◌, ◌++◌, map, append_assoc, append-nil, ◌≡◌, ◌≢◌, ◌↔◌, ◌⊎◌,
  inl, inr, refl, sym, ap, ◌∙◌, arith, ltb, leb, ◌==◌, if◌then◌else◌, Bool-cases, Option-cases,
  eq_of_==, ==_refl, &&-true, ||-true, ||-false, length, get_elem?, take, drop, is_empty, any, all,
  All, In, here, there, length-append, length-take-le, length-reverse, reverse, reverse-append,
  In-append_left, In-append_right, In-append_split, All-append, All-In, Text, codes, text_eq,
  eq_of_text_eq, text_eq_refl, text_eq_of_eq,
}
use jiraleaks.Hash.{sha256_hex}

-- In the order that the source derives.
pub data Severity : Type 0 where
  info low medium high critical : Severity

pub data Confidence : Type 0 where
  low medium high : Confidence

pub data SourceType : Type 0 where
  description comment attachment custom_field : SourceType

pub data FindingStatus : Type 0 where
  new recurring closed confirmed false_positive resolved : FindingStatus

pub data ScanStatus : Type 0 where
  success failed partial : ScanStatus

-- The derived order of `Confidence`.
abbrev pub confidence_rank : Confidence → ℕ
confidence_rank Confidence.low = 0
confidence_rank Confidence.medium = 1
confidence_rank Confidence.high = 2

abbrev pub confidence_lt : Confidence → Confidence → Bool
confidence_lt a b = ltb (confidence_rank a) (confidence_rank b)

abbrev source_rank : SourceType → ℕ
source_rank description = 0
source_rank comment = 1
source_rank attachment = 2
source_rank custom_field = 3

-- The derived equality of `SourceType`.
abbrev pub source_eq : SourceType → SourceType → Bool
source_eq a b = source_rank a == source_rank b

-- The names, behind the type that each belongs to.
unfoldable pub severity_as_str : Severity → Text
severity_as_str Severity.critical = codes "critical"
severity_as_str Severity.high = codes "high"
severity_as_str Severity.medium = codes "medium"
severity_as_str Severity.low = codes "low"
severity_as_str Severity.info = codes "info"

unfoldable pub confidence_as_str : Confidence → Text
confidence_as_str Confidence.high = codes "high"
confidence_as_str Confidence.medium = codes "medium"
confidence_as_str Confidence.low = codes "low"

module _ (lower : Text → Text) where
  unfoldable pub severity_parse_opt : Text → Option Severity
  severity_parse_opt s =
      let name = lower s in
      if text_eq name (codes "critical")
      then some Severity.critical
      else if text_eq name (codes "high")
      then some Severity.high
      else if text_eq name (codes "medium")
      then some Severity.medium
      else if text_eq name (codes "low")
      then some Severity.low
      else if text_eq name (codes "info")
      then some Severity.info
      else none

  unfoldable pub severity_parse : Text → Severity
  severity_parse s = elim (severity_parse_opt s) [
    | some severity ↦ severity
    | none ↦ Severity.medium
  ]

  unfoldable pub confidence_parse_opt : Text → Option Confidence
  confidence_parse_opt s =
      let name = lower s in
      if text_eq name (codes "high")
      then some Confidence.high
      else if text_eq name (codes "medium")
      then some Confidence.medium
      else if text_eq name (codes "low")
      then some Confidence.low
      else none

  unfoldable pub confidence_parse : Text → Confidence
  confidence_parse s = elim (confidence_parse_opt s) [
    | some confidence ↦ confidence
    | none ↦ Confidence.low
  ]

pub record Location : Type 0 where
  pub issue_key : Text
  pub field_path : Text
  pub source_type : SourceType

pub record ExternalValidation : Type 0 where
  pub valid : Bool
  pub source : Text
  pub checked_at : Text

pub record Finding : Type 0 where
  pub finding_id : Text
  pub issue_key : Text
  pub issue_url : Text
  pub field_path : Text
  pub rule_id : Text
  pub severity : Severity
  pub confidence : Confidence
  pub redacted_secret : Text
  pub secret_hash : Text
  pub snippet : Text
  pub detected_at : Text
  pub scanner_version : Text
  pub locations : List Location
  pub source_type : SourceType
  pub status : FindingStatus
  pub username : Option Text
  pub references : List Text
  pub first_seen : Option Text
  pub times_seen : Option ℕ
  pub external_validation : Option ExternalValidation

pub record FindingKey : Type 0 where
  pub secret_hash : Text
  pub rule_id : Text
  pub issue_key : Text

pub record MergeKey : Type 0 where
  pub secret_hash : Text
  pub rule_id : Text

-- `Display` of `MergeKey`.
abbrev pub merge_key_text : MergeKey → Text
merge_key_text k = k.secret_hash ++ b':' ∷ k.rule_id

-- What `fingerprint` hashes.
abbrev pub fingerprint_input : FindingKey → Text
fingerprint_input k = k.secret_hash ++ 0x1f ∷ (k.rule_id ++ 0x1f ∷ k.issue_key)

unfoldable pub fingerprint : (digest : Text → List ℕ) → FindingKey → Text
fingerprint digest k = codes "fp:" ++ sha256_hex digest (fingerprint_input k)

unfoldable pub key : Finding → FindingKey
key f = record { secret_hash = f.secret_hash; rule_id = f.rule_id; issue_key = f.issue_key }

abbrev pub merge_key : Finding → MergeKey
merge_key f = record { secret_hash = f.secret_hash; rule_id = f.rule_id }

unfoldable pub effective_locations : Finding → List Location
effective_locations f =
    if is_empty f.locations
    then record { issue_key = f.issue_key; field_path = f.field_path; source_type = f.source_type }
      ∷ []
    else f.locations

-- The key of the row that a finding owns at a location.
abbrev pub location_key : Finding → Location → FindingKey
location_key f loc = record {
  secret_hash = f.secret_hash;
  rule_id = f.rule_id;
  issue_key = loc.issue_key;
}

unfoldable pub location_keys : Finding → List FindingKey
location_keys f = map (location_key f) (effective_locations f)

unfoldable pub adjust_confidence : Confidence → Bool → Bool → Bool → Confidence
adjust_confidence base has_context_keyword entropy_above_threshold true = Confidence.low
adjust_confidence Confidence.high has_context_keyword entropy_above_threshold false =
    if has_context_keyword || entropy_above_threshold then Confidence.high else Confidence.medium
adjust_confidence Confidence.medium has_context_keyword entropy_above_threshold false =
    if has_context_keyword && entropy_above_threshold
    then Confidence.high
    else if not has_context_keyword && not entropy_above_threshold
    then Confidence.low
    else Confidence.medium
adjust_confidence Confidence.low has_context_keyword entropy_above_threshold false = Confidence.low
