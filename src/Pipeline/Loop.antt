-- ===== src/Pipeline/Loop.antt =====
-- src/pipeline.rs: the loop of `run` over the issues that the fetcher sends, as steps. Tasks may be
-- collected in any order, and the cancellation may be seen at any issue.
pub mod Ends
pub mod Counts
pub mod Tally
use jiraleaks.Base.{
  ℕ, zero, suc, ◌+◌, ◌-◌, ◌*◌, ◌/◌, ◌%◌, ◌^◌, ◌≤◌, ◌<◌, min, max, Bool, true, false, not, ◌&&◌,
  ◌||◌, Option, none, some, List, [], ◌∷◌, ◌++◌, map, append_assoc, append-nil, ◌≡◌, ◌≢◌, ◌↔◌, ◌⊎◌,
  inl, inr, refl, sym, ap, ◌∙◌, subst, arith, ltb, leb, ◌==◌, if◌then◌else◌, Bool-cases,
  Option-cases, eq_of_==, ==_refl, &&-true, ||-true, ||-false, length, get_elem?, take, drop,
  is_empty, any, all, All, In, here, there, length-append, length-take-le, length-reverse, reverse,
  reverse-append, In-append_left, In-append_right, In-append_split, All-append, All-In, Text, codes,
  text_eq, eq_of_text_eq, text_eq_refl, text_eq_of_eq, text_eq_comm, if_intro,
}
use jiraleaks.Error.{Result, ok, err}
use jiraleaks.Finding.{Finding, ScanStatus, Severity}
use jiraleaks.Progress.{
  ScanProgress, zeroed, finish_issue, record_comments, record_attachments, finish_issue_error,
}
use jiraleaks.Pipeline.Issue.{Issue, IssueOutcome}

-- What `join_next` gives of a task: its result, or a panic.
pub data Joined : Type 0 where
  finished : Result IssueOutcome → Joined
  join_error : Joined

pub data Phase : Type 0 where
  receiving : Phase
  -- An issue was received, and its task is not spawned yet.
  holding : Issue → Phase
  draining : Phase
  complete : Phase

-- `sent` are the issues that the channel still gives.
pub record State : Type 0 where
  pub phase : Phase
  pub sent : List Issue
  pub join_set : List Issue
  pub all_findings : List Finding
  pub errors_total : ℕ
  pub progress : ScanProgress
  pub scanned_issue_keys : List Text

abbrev pub initial : List Issue → ScanProgress → State
initial issues progress = record {
  phase = receiving;
  sent = issues;
  join_set = [];
  all_findings = [];
  errors_total = 0;
  progress = progress;
  scanned_issue_keys = [];
}

-- `collect_one`, for a task with this end.
unfoldable pub collect : Joined → State → State
collect (finished (ok outcome)) st = record st {
  all_findings = st.all_findings ++ outcome.findings;
  progress = finish_issue (length outcome.findings) (
      record_attachments outcome.attachments_scanned
        (record_comments outcome.comments_scanned st.progress));
}
collect (finished (err error)) st = record st {
  errors_total = st.errors_total + 1;
  progress = finish_issue_error st.progress;
}
collect join_error st = record st {
  errors_total = st.errors_total + 1;
  progress = finish_issue_error st.progress;
}

-- A process of one issue that panics makes its task fail to join.
abbrev pub joined : Option IssueOutcome → Joined
joined none = join_error
joined (some outcome) = finished (ok outcome)

module _ (work : Issue → Joined) (concurrency : ℕ) where
  abbrev pub limit : ℕ
  limit = concurrency * 2

  -- The state after the task of an issue is taken out of the set.
  abbrev pub collected : (others : List Issue) → Issue → State → State
  collected others issue st = collect (work issue) (record st { join_set = others })

  pub data Step : State → State → Type 0 where
    receive :
        {st : State} (issue : Issue) (rest : List Issue)
        → st.phase ≡ receiving
        → st.sent ≡ issue ∷ rest
        → Step st (record st { phase = holding issue; sent = rest })
    -- The cancellation is seen after an issue was received, which is dropped.
    cancel :
        {st : State} (issue : Issue) (rest : List Issue)
        → st.phase ≡ receiving
        → st.sent ≡ issue ∷ rest
        → Step st (record st { phase = draining; sent = rest })
    close :
        {st : State}
        → st.phase ≡ receiving
        → st.sent ≡ []
        → Step st (record st { phase = draining })
    make_room :
        {st : State} (held issue : Issue) (before after : List Issue)
        → st.phase ≡ holding held
        → limit ≤ length st.join_set
        → st.join_set ≡ before ++ issue ∷ after
        → Step st (collected (before ++ after) issue st)
    spawn :
        {st : State} (issue : Issue)
        → st.phase ≡ holding issue
        → length st.join_set < limit
        → Step st (record st {
          phase = receiving;
          join_set = st.join_set ++ issue ∷ [];
          scanned_issue_keys = issue.key ∷ st.scanned_issue_keys;
        })
    drain :
        {st : State} (issue : Issue) (before after : List Issue)
        → st.phase ≡ draining
        → st.join_set ≡ before ++ issue ∷ after
        → Step st (collected (before ++ after) issue st)
    finish :
        {st : State}
        → st.phase ≡ draining
        → st.join_set ≡ []
        → Step st (record st { phase = complete })

  pub data Steps : State → State → Type 0 where
    no_steps : {s : State} → Steps s s
    steps_then : {s t u : State} → Steps s t → Step t u → Steps s u

-- The status of the run.
unfoldable pub scan_status : (is_cancelled : Bool) → State → ScanStatus
scan_status is_cancelled st =
    if is_cancelled || ltb 0 st.errors_total then ScanStatus.partial else ScanStatus.success

-- `scanned_issue_keys` is a set of the source: a list here, whose repetitions do not matter.
pub record SeverityCounts : Type 0 where
  pub findings_critical : ℕ
  pub findings_high : ℕ
  pub findings_medium : ℕ
  pub findings_low : ℕ
  pub findings_info : ℕ

abbrev pub count_severity : Severity → SeverityCounts → SeverityCounts
count_severity Severity.critical n = record n { findings_critical = n.findings_critical + 1 }
count_severity Severity.high n = record n { findings_high = n.findings_high + 1 }
count_severity Severity.medium n = record n { findings_medium = n.findings_medium + 1 }
count_severity Severity.low n = record n { findings_low = n.findings_low + 1 }
count_severity Severity.info n = record n { findings_info = n.findings_info + 1 }

unfoldable pub count_severities : List Finding → SeverityCounts → SeverityCounts
count_severities [] n = n
count_severities (f ∷ fs) n = count_severities fs (count_severity f.severity n)
