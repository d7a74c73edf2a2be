-- ===== src/Pipeline/Loop/Counts.antt =====
-- What the counters of the loop mean, and that no finding of a task is lost or counted twice.
use jiraleaks.Base.{
  ℕ, suc, ◌+◌, ◌≤◌, ◌<◌, Bool, true, false, List, [], ◌∷◌, ◌++◌, ◌≡◌, ◌⊎◌, inl, inr, refl, ap, ◌∙◌,
  arith, length, length-append,
}
use jiraleaks.Finding.{Finding}
use jiraleaks.Error.{ok, err}
use jiraleaks.Progress.{zeroed, set_total}
use jiraleaks.Pipeline.Issue.{Issue}
use jiraleaks.Pipeline.Loop.{
  Joined, finished, join_error, Phase, holding, draining, complete, State, initial, collect, limit,
  Step, receive, cancel, close, make_room, spawn, drain, finish, Steps, no_steps, steps_then,
}

-- The sum of a number that each element has.
abbrev pub total {ℓ} : {A : Type ℓ} → (A → ℕ) → List A → ℕ
total f [] = 0
total f (x ∷ xs) = f x + total f xs

pub total-append {ℓ} :
    {A : Type ℓ} (f : A → ℕ) (xs ys : List A) → total f (xs ++ ys) ≡ total f xs + total f ys
total-append f [] ys = omega arith
total-append f (x ∷ xs) ys = omega (arith, total-append f xs ys)

total_none {ℓ} : {A : Type ℓ} (f : A → ℕ) (xs : List A) → length xs ≡ 0 → total f xs ≡ 0
total_none f [] h = refl
total_none f (x ∷ xs) h = absurd (omega (arith, h))

-- The findings that a task gives.
abbrev pub findings_of : Joined → List Finding
findings_of (finished (ok outcome)) = outcome.findings
findings_of (finished (err error)) = []
findings_of join_error = []

module _ (work : Issue → Joined) (concurrency : ℕ) (weigh : Finding → ℕ) where
  abbrev pub weight : Issue → ℕ
  weight issue = total weigh (findings_of (work issue))

  abbrev held_weight : Phase → ℕ
  held_weight (holding issue) = weight issue
  held_weight _ = 0

  abbrev held_count : Phase → ℕ
  held_count (holding issue) = 1
  held_count _ = 0

  abbrev is_past : Phase → Bool
  is_past draining = true
  is_past complete = true
  is_past _ = false

  abbrev is_complete : Phase → Bool
  is_complete complete = true
  is_complete _ = false

  -- Nothing was dropped: the weights add up, and so do the issues.
  pub record IsExact (issues : List Issue) (s : State) : Type 0 where
    pub weights :
        total weigh s.all_findings
          + total weight s.join_set
          + held_weight s.phase
          + total weight s.sent
        ≡ total weight issues
    pub counts : length s.scanned_issue_keys + held_count s.phase + length s.sent ≡ length issues

  -- The cancellation dropped an issue.
  pub record IsCut (issues : List Issue) (s : State) : Type 0 where
    pub past : is_past s.phase ≡ true
    pub fewer : length s.scanned_issue_keys < length issues

  -- What holds in every state of the loop.
  pub record IsCounted (issues : List Issue) (s : State) : Type 0 where
    pub in_flight : length s.join_set ≤ limit work concurrency
    pub attempted : s.progress.issues_done + length s.join_set ≡ length s.scanned_issue_keys
    pub errors : s.progress.errors_count ≡ s.errors_total
    pub found : s.progress.findings_found ≡ length s.all_findings
    pub succeeded : s.progress.errors_count ≤ s.progress.issues_done
    pub emptied : (is_complete s.phase ≡ false) ⊎ (s.join_set ≡ [])
    pub whole : IsExact issues s ⊎ IsCut issues s

  initial-IsCounted :
      (issues : List Issue) (n : ℕ) → IsCounted issues (initial issues (set_total n zeroed))
  initial-IsCounted issues n = record {
    in_flight = omega arith;
    attempted = refl;
    errors = refl;
    found = refl;
    succeeded = omega arith;
    emptied = inl refl;
    whole = inl (record { weights = omega arith; counts = omega arith });
  }

  whole_same :
      (issues : List Issue) (s t : State) (found : ℕ)
      → t.phase ≡ s.phase
      → t.sent ≡ s.sent
      → t.scanned_issue_keys ≡ s.scanned_issue_keys
      → total weigh t.all_findings ≡ total weigh s.all_findings + found
      → total weight s.join_set ≡ found + total weight t.join_set
      → IsExact issues s ⊎ IsCut issues s
      → IsExact issues t ⊎ IsCut issues t
  whole_same issues s t found p q k a b (inl exact) = inl (record {
    weights = omega (arith, exact.weights, a, b, ap held_weight p, ap (total weight) q);
    counts = omega (arith, exact.counts, ap length k, ap held_count p, ap length q);
  })
  whole_same issues s t found p q k a b (inr cut) =
      inr (record { past = ap is_past p ∙ cut.past; fewer = omega (arith, cut.fewer, ap length k) })

  -- A state that differs from another by a task that was collected, with what it found.
  record IsLess (s : State) (set : List Issue) (found : ℕ) : Type 0 where
    pub shorter : length s.join_set ≡ suc (length set)
    pub lighter : total weight s.join_set ≡ found + total weight set
    pub going : is_complete s.phase ≡ false

  failed-IsCounted :
      (issues : List Issue) (s : State) (set : List Issue)
      → IsCounted issues s
      → IsLess s set 0
      → IsCounted issues (collect join_error (record s { join_set = set }))
  unfolding collect
  failed-IsCounted issues s set c less = record {
    in_flight = omega (arith, c.in_flight, less.shorter);
    attempted = omega (arith, c.attempted, less.shorter);
    errors = omega (arith, c.errors);
    found = c.found;
    succeeded = omega (arith, c.succeeded);
    emptied = inl less.going;
    whole = whole_same issues s _ 0 refl refl refl (omega arith) less.lighter c.whole;
  }

  collect-IsCounted :
      (issues : List Issue) (s : State) (set : List Issue) (j : Joined)
      → IsCounted issues s
      → IsLess s set (total weigh (findings_of j))
      → IsCounted issues (collect j (record s { join_set = set }))
  unfolding collect
  collect-IsCounted issues s set (finished (ok outcome)) c less = record {
    in_flight = omega (arith, c.in_flight, less.shorter);
    attempted = omega (arith, c.attempted, less.shorter);
    errors = c.errors;
    found = omega (arith, c.found, length-append s.all_findings outcome.findings);
    succeeded = omega (arith, c.succeeded);
    emptied = inl less.going;
    whole =
        whole_same issues s _ (total weigh outcome.findings) refl refl refl
          (total-append weigh s.all_findings outcome.findings) less.lighter c.whole;
  }
  collect-IsCounted issues s set (finished (err error)) c less =
      failed-IsCounted issues s set c less
  collect-IsCounted issues s set join_error c less = failed-IsCounted issues s set c less

  taken-IsLess :
      (s : State) (issue : Issue) (before after : List Issue)
      → s.join_set ≡ before ++ issue ∷ after
      → is_complete s.phase ≡ false
      → IsLess s (before ++ after) (weight issue)
  taken-IsLess s issue before after e going = record {
    shorter =
        omega
          (arith, ap length e, length-append before (issue ∷ after), length-append before after);
    lighter = omega (
      arith,
      ap (total weight) e,
      total-append weight before (issue ∷ after),
      total-append weight before after,
    );
    going = going;
  }

  open_whole :
      (issues : List Issue) (s : State)
      → is_past s.phase ≡ false
      → IsExact issues s ⊎ IsCut issues s
      → IsExact issues s
  open_whole issues s going (inl exact) = exact
  open_whole issues s going (inr cut) = absurd (ground (arith, cut.past, going))

  finish_whole :
      (issues : List Issue) (s : State)
      → s.phase ≡ draining
      → IsExact issues s ⊎ IsCut issues s
      → IsExact issues (record s { phase = complete })
        ⊎ IsCut issues (record s { phase = complete })
  finish_whole issues s p (inl exact) = inl (record {
    weights = omega (arith, exact.weights, ap held_weight p);
    counts = omega (arith, exact.counts, ap held_count p);
  })
  finish_whole issues s p (inr cut) = inr (record { past = refl; fewer = cut.fewer })

  step-IsCounted :
      (issues : List Issue) (s t : State)
      → Step work concurrency s t
      → IsCounted issues s
      → IsCounted issues t
  step-IsCounted issues s t (receive issue rest p q) c =
      let exact = open_whole issues s (ap is_past p) c.whole in
      record {
        in_flight = c.in_flight;
        attempted = c.attempted;
        errors = c.errors;
        found = c.found;
        succeeded = c.succeeded;
        emptied = inl refl;
        whole = inl (record {
          weights = omega (arith, exact.weights, ap held_weight p, ap (total weight) q);
          counts = omega (arith, exact.counts, ap held_count p, ap length q);
        });
      }
  step-IsCounted issues s t (cancel issue rest p q) c =
      let exact = open_whole issues s (ap is_past p) c.whole in
      record {
        in_flight = c.in_flight;
        attempted = c.attempted;
        errors = c.errors;
        found = c.found;
        succeeded = c.succeeded;
        emptied = inl refl;
        whole = inr (record {
          past = refl;
          fewer = omega (arith, exact.counts, ap held_count p, ap length q);
        });
      }
  step-IsCounted issues s t (close p q) c =
      let exact = open_whole issues s (ap is_past p) c.whole in
      record {
        in_flight = c.in_flight;
        attempted = c.attempted;
        errors = c.errors;
        found = c.found;
        succeeded = c.succeeded;
        emptied = inl refl;
        whole = inl (record {
          weights = omega (arith, exact.weights, ap held_weight p);
          counts = omega (arith, exact.counts, ap held_count p);
        });
      }
  step-IsCounted issues s t (make_room held issue before after p full q) c =
      collect-IsCounted issues s (before ++ after) (work issue) c
        (taken-IsLess s issue before after q (ap is_complete p))
  step-IsCounted issues s t (spawn issue p room) c =
      let exact = open_whole issues s (ap is_past p) c.whole in
      record {
        in_flight = omega (arith, room, length-append s.join_set (issue ∷ []));
        attempted = omega (arith, c.attempted, length-append s.join_set (issue ∷ []));
        errors = c.errors;
        found = c.found;
        succeeded = c.succeeded;
        emptied = inl refl;
        whole = inl (record {
          weights =
              omega (
                arith,
                exact.weights,
                ap held_weight p,
                total-append weight s.join_set (issue ∷ []),
              );
          counts = omega (arith, exact.counts, ap held_count p);
        });
      }
  step-IsCounted issues s t (drain issue before after p q) c =
      collect-IsCounted issues s (before ++ after) (work issue) c
        (taken-IsLess s issue before after q (ap is_complete p))
  step-IsCounted issues s t (finish p q) c = record {
    in_flight = c.in_flight;
    attempted = c.attempted;
    errors = c.errors;
    found = c.found;
    succeeded = c.succeeded;
    emptied = inr q;
    whole = finish_whole issues s p c.whole;
  }

  steps-IsCounted :
      (issues : List Issue) (s t : State)
      → Steps work concurrency s t
      → IsCounted issues s
      → IsCounted issues t
  steps-IsCounted issues s t no_steps c = c
  steps-IsCounted issues s t (steps_then steps step) c =
      step-IsCounted issues _ t step (steps-IsCounted issues s _ steps c)

  -- In every state that the loop gets to, at most twice the configured number of tasks is in flight,
  -- every issue with a task is finished or in flight, no more errors are counted than issues
  -- finished, and as many findings as were collected. The findings add up with those of the tasks
  -- that are left, in any measure, unless an issue was dropped by the cancellation.
  pub reached-IsCounted :
      (issues : List Issue) (n : ℕ) (s : State)
      → Steps work concurrency (initial issues (set_total n zeroed)) s
      → IsCounted issues s
  reached-IsCounted issues n s steps = steps-IsCounted issues _ s steps (initial-IsCounted issues n)

  complete_totals :
      (issues : List Issue) (s : State)
      → IsCounted issues s
      → s.phase ≡ complete
      → s.progress.issues_done ≡ length issues
      → IsExact issues s ⊎ IsCut issues s
      → (s.join_set ≡ [])
      → total weigh s.all_findings ≡ total weight issues
  complete_totals issues s c p all_done (inl exact) empty =
      let none_sent : length s.sent ≡ 0 =
        omega (arith, exact.counts, c.attempted, all_done, ap length empty, ap held_count p) in
      omega (
        arith,
        exact.weights,
        ap held_weight p,
        ap (total weight) empty,
        total_none weight s.sent none_sent,
      )
  complete_totals issues s c p all_done (inr cut) empty =
      absurd (omega (arith, cut.fewer, c.attempted, all_done, ap length empty))

  -- When the loop is complete and every issue was attempted, its findings are those of the tasks of
  -- all issues, each as often as its task gave it, in whatever order the tasks came to their end:
  -- the two have the same sum in any measure of findings.
  pub complete-total :
      (issues : List Issue) (n : ℕ) (s : State)
      → Steps work concurrency (initial issues (set_total n zeroed)) s
      → s.phase ≡ complete
      → s.progress.issues_done ≡ length issues
      → total weigh s.all_findings ≡ total weight issues
  complete-total issues n s steps p all_done =
      let c = reached-IsCounted issues n s steps in
      elim c.emptied [
        | inl going ↦ absurd (ground (arith, going, ap is_complete p))
        | inr empty ↦ complete_totals issues s c p all_done c.whole empty
      ]
