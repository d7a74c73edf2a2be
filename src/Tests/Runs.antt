-- ===== src/Tests/Runs.antt =====
-- Runs of the model and instances of the theorems: the loop over the issues, and the fetching.
use jiraleaks.Base.{
  ℕ, suc, ◌<◌, some, List, [], ◌∷◌, ◌≡◌, refl, arith, length, take, drop, Text, codes,
}
use jiraleaks.Error.{Result, ok}
use jiraleaks.Json.{null}
use jiraleaks.Finding.{Finding}
use jiraleaks.Progress.{zeroed, set_total}
use jiraleaks.Pipeline.Issue.{Issue}
use jiraleaks.Pipeline.Loop.{
  Joined, finished, receiving, holding, draining, complete, State, initial, collect, collected,
  receive, close, spawn, drain, finish, Steps, no_steps, steps_then,
}
use jiraleaks.Pipeline.Loop.Ends.{work_left, step_decreases, complete_lem}
use jiraleaks.Pipeline.Loop.Counts.{total, weight, complete-total}
use jiraleaks.Fetcher.{SearchPage, FetchOptions, Fetched, fetch_issues_stream}
use jiraleaks.Fetcher.Paging.{never, always, Serves, IsUnlimited, fetch_whole, fetch_short}

abbrev issue : Text → Issue
issue key = record { id = key; key = key; fields = null }

abbrev one : List Issue
one = issue (codes "SEC-1") ∷ []

abbrev work : Issue → Joined
work i = finished (ok (record { findings = []; comments_scanned = 2; attachments_scanned = 1 }))

abbrev start : State
start = initial one (set_total 1 zeroed)

abbrev held : State
held = record start { phase = holding (issue (codes "SEC-1")); sent = [] }

abbrev spawned : State
spawned = record held { phase = receiving; join_set = one; scanned_issue_keys = codes "SEC-1" ∷ [] }

abbrev closed : State
closed = record spawned { phase = draining }

abbrev drained : State
drained = collected work 1 [] (issue (codes "SEC-1")) closed

abbrev ended : State
ended = record drained { phase = complete }

run : Steps work 1 start ended
unfolding collect
run =
    steps_then
      (steps_then
        (steps_then
          (steps_then (steps_then no_steps (receive (issue (codes "SEC-1")) [] refl refl))
            (spawn (issue (codes "SEC-1")) refl (omega arith)))
          (close refl refl))
        (drain (issue (codes "SEC-1")) [] [] refl refl))
      (finish refl refl)

step_decreases_example : work_left held < work_left start
step_decreases_example =
    step_decreases work 1 start held (receive (issue (codes "SEC-1")) [] refl refl)

complete_lem_example : (t : State) × Steps work 1 start t × (t.phase ≡ complete)
complete_lem_example = complete_lem work 1 start (omega arith)

all_done : ended.progress.issues_done ≡ length one
unfolding collect
all_done = refl

complete-total_example :
    total (λ (f : Finding). 1) ended.all_findings ≡ total (weight work 1 (λ f. 1)) one
complete-total_example = complete-total work 1 (λ f. 1) one 1 ended run refl all_done

abbrev three : List Issue
three = issue (codes "A-1") ∷ issue (codes "A-2") ∷ issue (codes "A-3") ∷ []

abbrev options : FetchOptions
options = record { fields = []; page_size = 2; max_issues = 0; concurrency = 1 }

-- A server that gives so many issues at once, whatever is asked for.
abbrev search : (at_once start_at page_size : ℕ) → Result SearchPage
search at_once start_at page_size = ok (record {
  total = length three;
  start_at = start_at;
  max_results = at_once;
  issues = take at_once (drop start_at three);
})

serves : (at_once : ℕ) → Serves three at_once (search at_once)
serves at_once = record { answers = λ start_at page_size. refl }

unlimited : IsUnlimited options three
unlimited = record { no_limit = refl; some_page = omega arith; room = omega arith }

fetch_whole_example :
    fetch_issues_stream options (search 2) never never always (suc (length three))
    ≡ some (record { sent = three; issues_total = length three; result = ok (length three) })
fetch_whole_example = fetch_whole options three (search 2) unlimited (serves 2)

fetch_short_example :
    (r : Fetched) × (fetched : ℕ) × (fetch_issues_stream options
        (search 1)
        never
        never
        always
        (suc (length three))
      ≡ some r)
    × (r.result ≡ ok fetched)
    × (r.issues_total ≡ length three)
    × (length r.sent < r.issues_total)
fetch_short_example =
    fetch_short options three (search 1) unlimited 1 (omega arith) (omega arith) (serves 1)
