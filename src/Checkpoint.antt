-- ===== src/Checkpoint.antt =====
-- src/checkpoint.rs: the baseline of an incremental scan and the query that it narrows. The
-- parameters are the JSON of a checkpoint, the reading of RFC 3339, the format of an instant in
-- UTC, the clock, and whether the directory can be written. An instant is a number of nanoseconds
-- since the first instant of the crate `time`, which is in the year -9999.
pub mod Trust
use jiraleaks.Base.{
  ℕ, zero, suc, ◌+◌, ◌-◌, ◌*◌, ◌/◌, ◌%◌, ◌^◌, ◌≤◌, ◌<◌, min, max, Bool, true, false, not, ◌&&◌,
  ◌||◌, Option, none, some, List, [], ◌∷◌, ◌++◌, map, append_assoc, append-nil, ◌≡◌, ◌≢◌, ◌↔◌, ◌⊎◌,
  inl, inr, refl, sym, ap, ◌∙◌, subst, arith, ltb, leb, ◌==◌, if◌then◌else◌, Bool-cases,
  Option-cases, eq_of_==, ==_refl, &&-true, ||-true, ||-false, length, get_elem?, take, drop,
  is_empty, any, all, All, In, here, there, length-append, length-take-le, length-reverse, reverse,
  reverse-append, In-append_left, In-append_right, In-append_split, All-append, All-In, Text, codes,
  text_eq, eq_of_text_eq, text_eq_refl, text_eq_of_eq, text_eq_comm, if_intro,
}
use jiraleaks.Text.Space.{trim, split_whitespace}
use jiraleaks.Finding.{ScanStatus}

abbrev pub checkpoint_version : ℕ
checkpoint_version = 2

-- Five minutes.
abbrev pub window_overlap : ℕ
window_overlap = 300000000000

abbrev pub success_status : Text
success_status = codes "success"

pub record Checkpoint : Type 0 where
  pub version : ℕ
  pub finished_at : Text
  pub jql : Text
  pub jira_url : Text
  pub status : Text

pub record IncrementalPlan : Type 0 where
  pub jql : Text
  pub checkpoint_finished_at : ℕ
  pub since : ℕ

-- The fields of `Config` and of `ScanRun` that this file reads.
pub record Config : Type 0 where
  pub incremental : Bool
  pub jql : Option Text
  pub jira_url : Text

pub record ScanRun : Type 0 where
  pub status : ScanStatus
  pub finished_at : Text

-- Why a checkpoint is not trusted.
pub data Fallback : Type 0 where
  other_version : ℕ → Fallback
  not_successful : Text → Fallback
  other_jql : Text → Fallback
  other_instance : Text → Fallback
  invalid_time : Text → Fallback
  in_future : Text → Fallback

pub data Window : Type 0 where
  ok : (since : ℕ) → Window
  err : Fallback → Window

-- `join(" ")`.
abbrev pub join_spaces : List Text → Text
join_spaces [] = []
join_spaces (w ∷ []) = w
join_spaces (w ∷ v ∷ ws) = w ++ b' ' ∷ join_spaces (v ∷ ws)

unfoldable pub normalize_jql : Text → Text
unfolding split_whitespace
normalize_jql jql = join_spaces (split_whitespace jql)

abbrev past_start : (now : ℕ) → Text → Option ℕ → Window
past_start now raw none = err (invalid_time raw)
past_start now raw (some finished_at) =
    if ltb now finished_at then err (in_future raw) else ok (finished_at - window_overlap)

unfoldable pub window_start :
    (parse_time : Text → Option ℕ) (now : ℕ) → Checkpoint → (jql jira_url : Text) → Window
unfolding normalize_jql
window_start parse_time now checkpoint jql jira_url =
    if not (checkpoint.version == checkpoint_version)
    then err (other_version checkpoint.version)
    else if not (text_eq checkpoint.status success_status)
    then err (not_successful checkpoint.status)
    else if not (text_eq (normalize_jql checkpoint.jql) (normalize_jql jql))
    then err (other_jql (normalize_jql checkpoint.jql))
    else if not (text_eq checkpoint.jira_url jira_url)
    then err (other_instance checkpoint.jira_url)
    else past_start now checkpoint.finished_at (parse_time checkpoint.finished_at)

-- The clause that bounds the window, and the query with it.
abbrev window_clause : (timestamp : ℕ → Text) → ℕ → Text
window_clause timestamp since = codes "updated >= \"" ++ (timestamp since ++ b'"' ∷ [])

unfoldable pub narrow_jql : (timestamp : ℕ → Text) → Text → ℕ → Text
unfolding trim
narrow_jql timestamp jql since =
    if is_empty (trim jql)
    then window_clause timestamp since
    else b'(' ∷ (trim jql ++ (codes ") AND " ++ window_clause timestamp since))

-- What the file holds that `read_checkpoint` reads, if it can be read at all.
unfoldable pub read_checkpoint :
    (parse_json : Text → Option Checkpoint) → Option Text → Option Checkpoint
read_checkpoint parse_json none = none
read_checkpoint parse_json (some content) = parse_json content

abbrev pub plan_from : (timestamp : ℕ → Text) → Text → Window → Option IncrementalPlan
plan_from timestamp jql (err reason) = none
plan_from timestamp jql (ok since) = some (record {
  jql = narrow_jql timestamp jql since;
  checkpoint_finished_at = since + window_overlap;
  since = since;
})

abbrev pub plan_of :
    (parse_time : Text → Option ℕ) (timestamp : ℕ → Text) (now : ℕ)
    → Config
    → Text
    → Option Checkpoint
    → Option IncrementalPlan
plan_of parse_time timestamp now config jql none = none
plan_of parse_time timestamp now config jql (some checkpoint) =
    plan_from timestamp jql (window_start parse_time now checkpoint jql config.jira_url)

unfoldable pub plan_incremental_scan :
    (parse_json : Text → Option Checkpoint) (parse_time : Text → Option ℕ) (timestamp : ℕ → Text)
    (now : ℕ)
    → Config
    → Text
    → Option Text
    → Option IncrementalPlan
unfolding read_checkpoint
plan_incremental_scan parse_json parse_time timestamp now config jql file =
    if not config.incremental
    then none
    else plan_of parse_time timestamp now config jql (read_checkpoint parse_json file)

abbrev pub unwrap_or_empty : Option Text → Text
unwrap_or_empty none = []
unwrap_or_empty (some t) = t

unfoldable pub checkpoint_for : Config → ScanRun → Checkpoint
checkpoint_for config scan_run = record {
  version = checkpoint_version;
  finished_at = scan_run.finished_at;
  jql = unwrap_or_empty config.jql;
  jira_url = config.jira_url;
  status = success_status;
}

-- The file behind an operation, and whether it succeeded. A failed write may leave any content;
-- here it leaves the content as it was.
abbrev pub write_json : (writable : Bool) → Option Text → Option Text → Option Text × Bool
write_json writable file none = (file, false)
write_json writable file (some json) = if writable then (some json, true) else (file, false)

unfoldable pub write_checkpoint :
    (to_json : Checkpoint → Option Text) (writable : Bool)
    → Config
    → ScanRun
    → Option Text
    → Option Text × Bool
write_checkpoint to_json writable config scan_run file =
    write_json writable file (to_json (checkpoint_for config scan_run))

abbrev pub is_success : ScanStatus → Bool
is_success ScanStatus.success = true
is_success _ = false

unfoldable pub maybe_write_checkpoint :
    (to_json : Checkpoint → Option Text) (writable : Bool)
    → Config
    → ScanRun
    → Option Text
    → Option Text × Bool
unfolding write_checkpoint
maybe_write_checkpoint to_json writable config scan_run file =
    if not config.incremental
    then (file, true)
    else if not (is_success scan_run.status)
    then (file, true)
    else write_checkpoint to_json writable config scan_run file
