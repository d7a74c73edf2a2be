-- ===== src/Tests/Baseline.antt =====
-- Runs of the model and instances of the theorems: the checkpoint.
use jiraleaks.Base.{ℕ, ◌+◌, ◌-◌, true, Option, none, some, ◌≡◌, refl, arith, Text, codes}
use jiraleaks.Text.Space.{trim, trim_start, trim_end, is_whitespace, split_whitespace}
use jiraleaks.Text.Space
use jiraleaks.Finding.{ScanStatus}
use jiraleaks.Checkpoint.{
  checkpoint_version, window_overlap, success_status, Checkpoint, IncrementalPlan, Config, ScanRun,
  normalize_jql, window_start, narrow_jql, read_checkpoint, plan_incremental_scan, checkpoint_for,
  maybe_write_checkpoint,
}
use jiraleaks.Checkpoint.Trust.{
  changed_since, IsTrusted, plan_incremental_scan-IsTrusted, plan_incremental_scan-written,
}

abbrev query : Text
query = codes "project = A"

abbrev config : Config
config = record { incremental = true; jql = some query; jira_url = codes "https://jira" }

abbrev run : ScanRun
run = record { status = ScanStatus.success; finished_at = codes "t1" }

abbrev stopped : ScanRun
stopped = record { status = ScanStatus.partial; finished_at = codes "t1" }

-- A format that keeps the time only.
abbrev to_json : Checkpoint → Option Text
to_json c = some c.finished_at

abbrev parse_json : Text → Option Checkpoint
parse_json raw = some (record {
  version = checkpoint_version;
  finished_at = raw;
  jql = query;
  jira_url = codes "https://jira";
  status = success_status;
})

abbrev finish : ℕ
finish = 1000000000000

abbrev parse_time : Text → Option ℕ
parse_time raw = some finish

abbrev timestamp : ℕ → Text
timestamp t = codes "2026-01-01 00:00"

narrowed :
    narrow_jql timestamp (codes " a = 1 OR b = 2 ") 0
    ≡ codes "(a = 1 OR b = 2) AND updated >= \"2026-01-01 00:00\""
unfolding narrow_jql trim trim_start trim_end is_whitespace
narrowed = refl

normal : normalize_jql (codes " a  = 1 ") ≡ codes "a = 1"
unfolding normalize_jql split_whitespace is_whitespace Space.words_from
normal = refl

abbrev planned : IncrementalPlan
planned = record {
  jql = changed_since timestamp query (finish - window_overlap);
  checkpoint_finished_at = finish - window_overlap + window_overlap;
  since = finish - window_overlap;
}

plan_incremental_scan-written_example :
    (maybe_write_checkpoint to_json true config run none ≡ (some (codes "t1"), true))
    × (plan_incremental_scan parse_json parse_time timestamp finish config query
          (maybe_write_checkpoint to_json true config run none).0
        ≡ some planned)
unfolding checkpoint_for
plan_incremental_scan-written_example =
    plan_incremental_scan-written parse_json parse_time timestamp finish to_json config run query
      (codes "t1") none finish refl refl refl refl refl refl (omega arith)

plans :
    plan_incremental_scan parse_json parse_time timestamp finish config query (some (codes "t1"))
    ≡ some planned
unfolding plan_incremental_scan read_checkpoint window_start normalize_jql split_whitespace
    is_whitespace Space.words_from narrow_jql trim trim_start trim_end
plans = refl

plan_incremental_scan-IsTrusted_example :
    (config.incremental ≡ true)
    × ((c : Checkpoint) × (read_checkpoint parse_json (some (codes "t1")) ≡ some c)
        × IsTrusted parse_time finish c query config.jira_url planned.since)
    × (planned.jql ≡ changed_since timestamp query planned.since)
plan_incremental_scan-IsTrusted_example =
    plan_incremental_scan-IsTrusted parse_json parse_time timestamp finish config query
      (some (codes "t1")) planned plans
