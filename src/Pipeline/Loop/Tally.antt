-- ===== src/Pipeline/Loop/Tally.antt =====
-- Which issues the counters of the loop stand for: those whose tasks were collected.
use jiraleaks.Base.{ℕ, ◌+◌, ◌≤◌, List, ◌≡◌, length, Text}
use jiraleaks.Error.{ok, err}
use jiraleaks.Finding.{Finding}
use jiraleaks.Pipeline.Issue.{Issue}
use jiraleaks.Pipeline.Loop.{Joined, finished, join_error, Phase, holding, State}
use jiraleaks.Pipeline.Loop.Counts.{total, findings_of, weight}

-- 1 for a task that gives an error or panics.
abbrev pub failure : Joined → ℕ
failure (finished (ok outcome)) = 0
failure (finished (err error)) = 1
failure join_error = 1

abbrev held : (Issue → ℕ) → Phase → ℕ
held measure (holding issue) = measure issue
held measure _ = 0

module _ (work : Issue → Joined) (concurrency : ℕ) (weigh : Finding → ℕ) (weigh_key : Text → ℕ)
    (measure : Issue → ℕ) where
  abbrev pub fails : Issue → ℕ
  fails issue = failure (work issue)

  abbrev pub key_weight : Issue → ℕ
  key_weight issue = weigh_key issue.key

  -- `ended` are the issues whose tasks were collected.
  pub record IsTallied (issues : List Issue) (s : State) : Type 0 where
    pub ended : List Issue
    pub done : s.progress.issues_done ≡ length ended
    pub failed : s.errors_total ≡ total fails ended
    pub reported : s.progress.errors_count ≡ total fails ended
    pub found : total weigh s.all_findings ≡ total (weight work concurrency weigh) ended
    pub keys :
        total weigh_key s.scanned_issue_keys ≡ total key_weight ended + total key_weight s.join_set
    pub drawn :
        total measure ended + total measure s.join_set + held measure s.phase + total measure s.sent
        ≤ total measure issues

  -- What `collect` adds for a task.
  record IsAdded (j : Joined) (s t : State) : Type 0 where
    pub one : t.progress.issues_done ≡ s.progress.issues_done + 1
    pub error : t.errors_total ≡ s.errors_total + failure j
    pub reported : t.progress.errors_count ≡ s.progress.errors_count + failure j
    pub found :
        total weigh t.all_findings ≡ total weigh s.all_findings + total weigh (findings_of j)
    pub same_phase : t.phase ≡ s.phase
    pub same_sent : t.sent ≡ s.sent
    pub same_set : t.join_set ≡ s.join_set
    pub same_keys : t.scanned_issue_keys ≡ s.scanned_issue_keys
