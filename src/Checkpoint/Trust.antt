-- ===== src/Checkpoint/Trust.antt =====
-- When a checkpoint narrows a scan, and what a scan leaves for the next one.
use jiraleaks.Base.{
  ℕ, ◌+◌, ◌-◌, ◌≤◌, Bool, true, false, not, Option, some, [], ◌∷◌, ◌++◌, append_assoc, ◌≡◌, ◌≢◌,
  ◌⊎◌, inl, inr, refl, sym, ap, ◌∙◌, subst, arith, ltb, if◌then◌else◌, Bool-cases, Option-cases,
  is_empty, Text, codes, eq_of_text_eq, text_eq_refl,
}
use jiraleaks.Text.Space.{trim}
use jiraleaks.Finding.{ScanStatus}
use jiraleaks.Checkpoint.{
  checkpoint_version, window_overlap, success_status, Checkpoint, IncrementalPlan, Config, ScanRun,
  Window, ok, err, normalize_jql, window_start, narrow_jql, read_checkpoint, plan_from,
  plan_incremental_scan, checkpoint_for, write_checkpoint, maybe_write_checkpoint, is_success,
  write_json,
}

-- The conditions under which a checkpoint may narrow a scan.
pub record IsTrusted (parse_time : Text → Option ℕ) (now : ℕ) (checkpoint : Checkpoint)
    (jql jira_url : Text) (since : ℕ) : Type 0 where
  pub current : checkpoint.version ≡ checkpoint_version
  pub succeeded : checkpoint.status ≡ success_status
  pub query : normalize_jql checkpoint.jql ≡ normalize_jql jql
  pub instance_url : checkpoint.jira_url ≡ jira_url
  pub past :
      (t : ℕ) × (parse_time checkpoint.finished_at ≡ some t)
      × (t ≤ now)
      × (since ≡ t - window_overlap)

window_start-IsTrusted :
    (parse_time : Text → Option ℕ) (now : ℕ) (c : Checkpoint) (jql jira_url : Text) (since : ℕ)
    → window_start parse_time now c jql jira_url ≡ ok since
    → IsTrusted parse_time now c jql jira_url since
unfolding window_start
window_start-IsTrusted parse_time now c jql jira_url since h =
    elim (Option-cases (parse_time c.finished_at)) [
      | inl none_read ↦ absurd (ground arith)
      | inr (t, read) ↦ record {
        current = ground arith;
        succeeded = eq_of_text_eq _ _ (ground arith);
        query = eq_of_text_eq _ _ (ground arith);
        instance_url = eq_of_text_eq _ _ (ground arith);
        past = (t, read, ground arith, ground arith);
      }
    ]

plan_from-some :
    (timestamp : ℕ → Text) (jql : Text) (w : Window) (p : IncrementalPlan)
    → plan_from timestamp jql w ≡ some p
    → (w ≡ ok p.since)
      × (p.jql ≡ narrow_jql timestamp jql p.since)
      × (p.checkpoint_finished_at ≡ p.since + window_overlap)
plan_from-some timestamp jql (err reason) p h = absurd (cc)
plan_from-some timestamp jql (ok since) p h =
    let same : ◌≡◌ {A = IncrementalPlan}
        (record {
          jql = narrow_jql timestamp jql since;
          checkpoint_finished_at = since + window_overlap;
          since = since;
        })
        p =
      cc in
    subst
      (λ (x : IncrementalPlan).
        (ok since ≡ ok x.since)
        × (x.jql ≡ narrow_jql timestamp jql x.since)
        × (x.checkpoint_finished_at ≡ x.since + window_overlap))
      same (refl, refl, refl)

write_checkpoint-written :
    (to_json : Checkpoint → Option Text) (config : Config) (scan_run : ScanRun) (json : Text)
    (file : Option Text)
    → to_json (checkpoint_for config scan_run) ≡ some json
    → write_checkpoint to_json true config scan_run file ≡ (some json, true)
unfolding write_checkpoint
write_checkpoint-written to_json config scan_run json file written =
    ap (λ j. write_json true file j) written

maybe_write_checkpoint-success :
    (to_json : Checkpoint → Option Text) (config : Config) (scan_run : ScanRun) (json : Text)
    (file : Option Text)
    → config.incremental ≡ true
    → scan_run.status ≡ ScanStatus.success
    → to_json (checkpoint_for config scan_run) ≡ some json
    → maybe_write_checkpoint to_json true config scan_run file ≡ (some json, true)
unfolding maybe_write_checkpoint
maybe_write_checkpoint-success to_json config scan_run json file on done written =
    let rest = write_checkpoint to_json true config scan_run file in
    let stay : Option Text × Bool = (file, true) in
    ap (λ b. if not b then stay else if not (is_success scan_run.status) then stay else rest) on
    ∙ ap (λ s. if not (is_success s) then stay else rest) done
    ∙ write_checkpoint-written to_json config scan_run json file written

window_start-checkpoint_for :
    (parse_time : Text → Option ℕ) (now : ℕ) (config : Config) (scan_run : ScanRun) (jql : Text)
    (t : ℕ)
    → config.jql ≡ some jql
    → parse_time scan_run.finished_at ≡ some t
    → t ≤ now
    → window_start parse_time now (checkpoint_for config scan_run) jql config.jira_url
      ≡ ok (t - window_overlap)
unfolding window_start checkpoint_for
window_start-checkpoint_for parse_time now config scan_run jql t query time past =
    let not_future : ltb now t ≡ false = ground arith in
    rw (query, text_eq_refl (normalize_jql jql), text_eq_refl config.jira_url, time, not_future)
      refl

-- What a narrowed query puts before the bound: the query of the configuration in parentheses, or
-- nothing if that is blank.
abbrev pub scope : Text → Text
scope jql = if is_empty (trim jql) then [] else codes "(" ++ (trim jql ++ codes ") AND ")

-- The query for what changed since an instant.
abbrev pub changed_since : (timestamp : ℕ → Text) → Text → ℕ → Text
changed_since timestamp jql since =
    scope jql ++ (codes "updated >= \"" ++ (timestamp since ++ codes "\""))

narrow_jql-changed_since :
    (timestamp : ℕ → Text) (jql : Text) (since : ℕ)
    → narrow_jql timestamp jql since ≡ changed_since timestamp jql since
unfolding narrow_jql
narrow_jql-changed_since timestamp jql since = elim (Bool-cases (is_empty (trim jql))) [
  | inl blank ↦ rw blank refl
  | inr query ↦ rw query (
      ap (◌∷◌ b'(') (
        sym (
          append_assoc (trim jql) (codes ") AND ")
            (codes "updated >= \"" ++ (timestamp since ++ codes "\"")))))
]

module _ (parse_json : Text → Option Checkpoint) (parse_time : Text → Option ℕ)
    (timestamp : ℕ → Text) (now : ℕ) where
  -- A scan is narrowed only if it is incremental and the file holds a checkpoint of this version,
  -- of a successful scan, of the same query up to white space, of the same instance, with a time
  -- that is not in the future. It then asks, within the query in parentheses if that is not blank,
  -- for what was updated from the overlap before that time on.
  pub plan_incremental_scan-IsTrusted :
      (config : Config) (jql : Text) (file : Option Text) (p : IncrementalPlan)
      → plan_incremental_scan parse_json parse_time timestamp now config jql file ≡ some p
      → (config.incremental ≡ true)
        × ((c : Checkpoint) × (read_checkpoint parse_json file ≡ some c)
            × IsTrusted parse_time now c jql config.jira_url p.since)
        × (p.jql ≡ changed_since timestamp jql p.since)
  unfolding plan_incremental_scan
  plan_incremental_scan-IsTrusted config jql file p h = elim (Bool-cases config.incremental) [
    | inr off ↦ absurd (ground arith)
    | inl on ↦ elim (Option-cases (read_checkpoint parse_json file)) [
      | inl nothing ↦ absurd (ground arith)
      | inr (c, read) ↦
          let planned : plan_from timestamp jql (window_start parse_time now c jql config.jira_url)
              ≡ some p =
            rw (on, read) at h in
          let (window, query, _) = plan_from-some timestamp jql _ p planned in
          (
            on,
            (c, read, window_start-IsTrusted parse_time now c jql config.jira_url p.since window),
            query ∙ narrow_jql-changed_since timestamp jql p.since,
          )
    ]
  ]

  -- The checkpoint that a successful incremental scan writes, if the file can be written, narrows
  -- the next scan with the same query and instance to what was updated since five minutes before
  -- that scan ended, however long it ran, if JSON and times are read back as they were written and
  -- the clock has not gone back. The query of the next scan is the same query, in parentheses if it
  -- is not blank, with that bound.
  pub plan_incremental_scan-written :
      (to_json : Checkpoint → Option Text) (config : Config) (scan_run : ScanRun) (jql json : Text)
      (file : Option Text) (t : ℕ)
      → config.incremental ≡ true
      → config.jql ≡ some jql
      → scan_run.status ≡ ScanStatus.success
      → to_json (checkpoint_for config scan_run) ≡ some json
      → parse_json json ≡ some (checkpoint_for config scan_run)
      → parse_time scan_run.finished_at ≡ some t
      → t ≤ now
      → (maybe_write_checkpoint to_json true config scan_run file ≡ (some json, true))
        × (plan_incremental_scan parse_json parse_time timestamp now config jql
              (maybe_write_checkpoint to_json true config scan_run file).0
            ≡ some (record {
              jql = changed_since timestamp jql (t - 300000000000);
              checkpoint_finished_at = t - 300000000000 + 300000000000;
              since = t - 300000000000;
            }))
  unfolding plan_incremental_scan read_checkpoint
  plan_incremental_scan-written to_json config scan_run jql json file t on query done written read
        time past =
      let kept = maybe_write_checkpoint-success to_json config scan_run json file on done written in
      let window =
        window_start-checkpoint_for parse_time now config scan_run jql t query time past in
      let query_of = narrow_jql-changed_since timestamp jql (t - window_overlap) in
      (
        kept,
        rw (kept, on, read)
            (ap (λ w. plan_from timestamp jql w) window
              ∙ ap
                  (λ q. some (record {
                    jql = q;
                    checkpoint_finished_at = t - window_overlap + window_overlap;
                    since = t - window_overlap;
                  }))
                  query_of),
      )

-- A scan that is not incremental, or that did not succeed, leaves the file as it was and reports
-- no error.
maybe_write_checkpoint-keeps :
    (to_json : Checkpoint → Option Text) (writable : Bool) (config : Config) (scan_run : ScanRun)
    (file : Option Text)
    → (config.incremental ≡ false) ⊎ (scan_run.status ≢ ScanStatus.success)
    → maybe_write_checkpoint to_json writable config scan_run file ≡ (file, true)
unfolding maybe_write_checkpoint
maybe_write_checkpoint-keeps to_json writable config scan_run file (inl off) = rw off refl
maybe_write_checkpoint-keeps to_json writable config scan_run file (inr other) =
    elim (Bool-cases config.incremental) [
      | inl on ↦ rw (on, failed_of scan_run.status other) refl
      | inr off ↦ rw off refl
    ]
  where
    failed_of : (s : ScanStatus) → s ≢ ScanStatus.success → is_success s ≡ false
    failed_of ScanStatus.success h = absurd (h refl)
    failed_of ScanStatus.failed h = refl
    failed_of ScanStatus.partial h = refl
