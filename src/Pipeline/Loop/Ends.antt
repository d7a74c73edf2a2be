-- ===== src/Pipeline/Loop/Ends.antt =====
-- The loop ends: each step uses up something, and one that is not complete has a next step.
use jiraleaks.Base.{
  ℕ, zero, suc, ◌+◌, ◌*◌, ◌≤◌, ◌<◌, List, [], ◌∷◌, ◌++◌, ◌≡◌, ◌⊎◌, inl, inr, refl, ap, arith, ltb,
  Bool-cases, length, length-append,
}
use jiraleaks.Error.{ok, err}
use jiraleaks.Pipeline.Issue.{Issue}
use jiraleaks.Pipeline.Loop.{
  Joined, finished, join_error, Phase, receiving, holding, draining, complete, State, collect,
  limit, collected, Step, receive, cancel, close, make_room, spawn, drain, finish, Steps, no_steps,
  steps_then,
}

abbrev phase_left : Phase → ℕ
phase_left receiving = 2
phase_left (holding issue) = 4
phase_left draining = 1
phase_left complete = 0

-- What is left to do: every issue that is sent is received, spawned and collected.
abbrev pub work_left : State → ℕ
work_left st = phase_left st.phase + (length st.join_set + length st.sent * 4)

collect_same :
    (j : Joined) (st : State)
    → ((collect j st).phase ≡ st.phase)
      × ((collect j st).sent ≡ st.sent)
      × ((collect j st).join_set ≡ st.join_set)
unfolding collect
collect_same (finished (ok outcome)) st = (refl, refl, refl)
collect_same (finished (err error)) st = (refl, refl, refl)
collect_same join_error st = (refl, refl, refl)

module _ (work : Issue → Joined) (concurrency : ℕ) where
  collected-less :
      (st : State) (issue : Issue) (before after : List Issue)
      → st.join_set ≡ before ++ issue ∷ after
      → work_left (collected work concurrency (before ++ after) issue st) < work_left st
  collected-less st issue before after e =
      let (phase, sent, set) =
        collect_same (work issue) (record st { join_set = before ++ after }) in
      omega (
        arith,
        ap phase_left phase,
        ap length sent,
        ap length set,
        ap length e,
        length-append before (issue ∷ after),
        length-append before after,
      )

  -- Every step of the loop leaves less to do, so that no run of it goes on for ever.
  pub step_decreases : (s t : State) → Step work concurrency s t → work_left t < work_left s
  step_decreases s t (receive issue rest p q) = omega (arith, ap phase_left p, ap length q)
  step_decreases s t (cancel issue rest p q) = omega (arith, ap phase_left p, ap length q)
  step_decreases s t (close p q) = omega (arith, ap phase_left p)
  step_decreases s t (make_room held issue before after p full q) =
      collected-less s issue before after q
  step_decreases s t (spawn issue p room) =
      omega (arith, ap phase_left p, length-append s.join_set (issue ∷ []))
  step_decreases s t (drain issue before after p q) = collected-less s issue before after q
  step_decreases s t (finish p q) = omega (arith, ap phase_left p)

  next_drain :
      (s : State) (set : List Issue)
      → s.phase ≡ draining
      → s.join_set ≡ set
      → (t : State) × Step work concurrency s t
  next_drain s [] p q = (_, finish p q)
  next_drain s (issue ∷ rest) p q = (_, drain issue [] rest p q)

  next_make_room :
      (s : State) (held : Issue) (set : List Issue)
      → 0 < concurrency
      → s.phase ≡ holding held
      → s.join_set ≡ set
      → limit work concurrency ≤ length s.join_set
      → (t : State) × Step work concurrency s t
  next_make_room s held [] some_tasks p q full = absurd (omega (arith, ap length q))
  next_make_room s held (issue ∷ rest) some_tasks p q full =
      (_, make_room held issue [] rest p full q)

  next_receive :
      (s : State) (sent : List Issue)
      → s.phase ≡ receiving
      → s.sent ≡ sent
      → (t : State) × Step work concurrency s t
  next_receive s [] p q = (_, close p q)
  next_receive s (issue ∷ rest) p q = (_, receive issue rest p q)

  -- A state that is not complete has a next step.
  next :
      (s : State) (phase : Phase)
      → 0 < concurrency
      → s.phase ≡ phase
      → (s.phase ≡ complete) ⊎ ((t : State) × Step work concurrency s t)
  next s receiving some_tasks p = inr (next_receive s s.sent p refl)
  next s (holding held) some_tasks p =
      elim (Bool-cases (ltb (length s.join_set) (limit work concurrency))) [
        | inl room ↦ inr (_, spawn held p (ground arith))
        | inr full ↦ inr (next_make_room s held s.join_set some_tasks p refl (ground arith))
      ]
  next s draining some_tasks p = inr (next_drain s s.join_set p refl)
  next s complete some_tasks p = inl p

  before_them :
      (s t u : State)
      → Step work concurrency s t
      → Steps work concurrency t u
      → Steps work concurrency s u
  before_them s t u step no_steps = steps_then no_steps step
  before_them s t u step (steps_then more last) = steps_then (before_them s t _ step more) last

  complete_within :
      (fuel : ℕ) (s : State)
      → 0 < concurrency
      → work_left s ≤ fuel
      → (t : State) × Steps work concurrency s t × (t.phase ≡ complete)
  complete_within zero s some_tasks enough = elim (next s s.phase some_tasks refl) [
    | inl done ↦ (s, no_steps, done)
    | inr (t, step) ↦ absurd (omega (arith, step_decreases s t step))
  ]
  complete_within (suc fuel) s some_tasks enough = elim (next s s.phase some_tasks refl) [
    | inl done ↦ (s, no_steps, done)
    | inr (t, step) ↦
        let (u, steps, done) =
          complete_within fuel t some_tasks (omega (arith, step_decreases s t step)) in
        (u, before_them s t u step steps, done)
  ]

  -- With at least one task allowed, the loop gets from any state to its end: no wait for room and no
  -- order of the tasks blocks it.
  pub complete_lem :
      (s : State)
      → 0 < concurrency
      → (t : State) × Steps work concurrency s t × (t.phase ≡ complete)
  complete_lem s some_tasks = complete_within (work_left s) s some_tasks (omega arith)
