-- ===== src/Runner/Drain.antt =====
-- A worker of services/browser_runner/src/voyagent_browser_runner/worker.py drains its queue.
use mathlib.Core.Bool.{false≢true}
use voyagent.Prelude.{
  ℕ, zero, suc, ◌+◌, ◌-◌, ◌≤◌, ◌≡◌, refl, sym, ap, ◌∙◌, true, false, Option, none, some, List, [],
  ◌∷◌, ◌++◌, ◌⊎◌, inl, inr, if◌then◌else◌, arith, Bool-cases, ◌=?◌, =?_iff, is_some,
}
use voyagent.Prelude.Text.{Text, text_key}
use voyagent.Prelude.Dict.{Dict, lookup, insert, lookup-insert}
use voyagent.Runner.Types.{Job, JobResult}
use voyagent.Runner.Queue.{JobQueue, dequeue, put_result}
use voyagent.Runner.Worker.{Setting, retry_of, process_one, run_rounds}
use voyagent.Runner.Verdict.{is_final, Verdict, process_one-Verdict}

abbrev pub open_queue : {J : Type 0} → List (Job J) → Dict Text (JobResult J) → JobQueue J
open_queue jobs results = record { queue = jobs; results = results; closed = false }

-- How often a job can still be taken, and how often all that are queued can.
abbrev pub cost : {J : Type 0} → ℕ → Job J → ℕ
cost limit job = suc (limit - job.attempts)

abbrev pub total_cost : {J : Type 0} → ℕ → List (Job J) → ℕ
total_cost limit [] = 0
total_cost limit (job ∷ jobs) = cost limit job + total_cost limit jobs

-- A final result is stored for an id.
abbrev pub IsDone : {J : Type 0} → Text → Dict Text (JobResult J) → Type 0
IsDone {J} id results =
    (r : JobResult J) × (lookup id results ≡ some r) × (is_final r.status ≡ true)

-- A job with an id waits.
abbrev pub Waits : {J : Type 0} → Text → List (Job J) → Type 0
Waits id [] = ⊥
Waits id (job ∷ jobs) = (job.id ≡ id) ⊎ Waits id jobs

module _ {J : Type 0} where
  total_cost-append :
      (limit : ℕ) (jobs : List (Job J)) (job : Job J)
      → total_cost limit (jobs ++ (job ∷ [])) ≡ total_cost limit jobs + cost limit job
  total_cost-append limit [] job = omega arith
  total_cost-append limit (j ∷ jobs) job = omega (arith, total_cost-append limit jobs job)

  Waits-append :
      (id : Text) (jobs : List (Job J)) (job : Job J)
      → Waits id jobs
      → Waits id (jobs ++ (job ∷ []))
  Waits-append id (j ∷ jobs) job (inl same) = inl same
  Waits-append id (j ∷ jobs) job (inr rest) = inr (Waits-append id jobs job rest)
  Waits-append id [] job w = elim w [ ]

  Waits-last :
      (id : Text) (jobs : List (Job J)) (job : Job J) → job.id ≡ id → Waits id (jobs ++ (job ∷ []))
  Waits-last id [] job same = inl same
  Waits-last id (j ∷ jobs) job same = inr (Waits-last id jobs job same)

  insert-IsDone :
      (id : Text) (r : JobResult J) (results : Dict Text (JobResult J))
      → is_final r.status ≡ true
      → (r.job_id ≡ id) ⊎ IsDone id results
      → IsDone id (insert r.job_id r results)
  insert-IsDone id r results final h = elim (Bool-cases (r.job_id =? id)) [
    | inl same ↦ (
      r,
      lookup-insert r.job_id id r results ∙ ap (λ b. if b then some r else lookup id results) same,
      final,
    )
    | inr other ↦ elim h [
      | inl same ↦ absurd (false≢true (sym other ∙ (=?_iff r.job_id id).1 same))
      | inr (r', found, final') ↦ (
        r',
        lookup-insert r.job_id id r results
            ∙ ap (λ b. if b then some r else lookup id results) other
            ∙ found,
        final',
      )
    ]
  ]

-- The queue is empty, and each id that waited or had a final result has one.
abbrev pub Drains :
    {J W : Type 0} → List (Job J) → Dict Text (JobResult J) → JobQueue J × W → Type 0
Drains jobs results y =
    (y.0.queue ≡ []) × ((id : Text) → Waits id jobs ⊎ IsDone id results → IsDone id y.0.results)

module _ {J C W : Type 0} (s : Setting J C W)
    (steady : (ref : Text) (w : W) → is_some (s.resolve_creds ref w).0 ≡ true) where
  -- A round that took a job, by how it ended.
  go_on :
      (n : ℕ) (job : Job J) (jobs : List (Job J)) (results : Dict Text (JobResult J))
      (x : Option (JobResult J) × JobQueue J × W)
      → ((jobs' : List (Job J)) (results' : Dict Text (JobResult J)) (w : W)
          → total_cost s.retry_limit jobs' ≤ n
          → Drains jobs' results' (run_rounds n s (open_queue jobs' results') w))
      → total_cost s.retry_limit (job ∷ jobs) ≤ suc n
      → Verdict s job (open_queue jobs results) x
      → Drains (job ∷ jobs) results (elim x.0 as (λ _. JobQueue J × W) [
        | none ↦ (x.1, x.2)
        | some r ↦ run_rounds n s x.1 x.2
      ])
  unfolding put_result
  go_on n job jobs results (o, q, w) ih enough (inl (r, there, same, final, after)) =
      rw (there, after)
        (let (empty, done) = ih jobs (insert r.job_id r results) w (omega (arith, enough)) in
          (
            empty,
            λ id h. done id (elim h [
              | inl (inl mine) ↦ inr (insert-IsDone id r results final (inl (same ∙ mine)))
              | inl (inr waits) ↦ inl waits
              | inr old ↦ inr (insert-IsDone id r results final (inr old))
            ]),
          ))
  go_on n job jobs results (o, q, w) ih enough (inr (inl (r, there, again, below, free, after))) =
      rw (there, after)
        (let (empty, done) =
            ih (jobs ++ (retry_of job ∷ [])) results w
              (omega (arith, enough, below, total_cost-append s.retry_limit jobs (retry_of job))) in
          (
            empty,
            λ id h. done id (elim h [
              | inl (inl mine) ↦ inl (Waits-last id jobs (retry_of job) mine)
              | inl (inr waits) ↦ inl (Waits-append id jobs (retry_of job) waits)
              | inr old ↦ inr old
            ]),
          ))
  go_on n job jobs results (o, q, w) ih enough (inr (inr (gone, kept, inl shut))) =
      absurd (false≢true shut)
  go_on n job jobs results (o, q, w) ih enough (inr (inr (gone, kept, inr (w', failing)))) =
      absurd (false≢true (sym (ap is_some failing) ∙ steady job.tenant_credentials_ref w'))

  -- Where credentials can always be resolved, a worker whose queue nobody else fills drains it: after
  -- as many rounds as its jobs have attempts left, with one more for each, the queue is empty, and
  -- every job that waited has a stored result that is final, succeeded or failed.
  pub run_rounds-Drains :
      (n : ℕ) (jobs : List (Job J)) (results : Dict Text (JobResult J)) (w : W)
      → total_cost s.retry_limit jobs ≤ n
      → Drains jobs results (run_rounds n s (open_queue jobs results) w)
  unfolding run_rounds dequeue
  run_rounds-Drains zero [] results w enough =
      (refl, λ id h. elim h [ inl none_waits ↦ elim none_waits [ ] | inr old ↦ old ])
  run_rounds-Drains zero (job ∷ jobs) results w enough = absurd (omega (arith, enough))
  run_rounds-Drains (suc n) [] results w enough = run_rounds-Drains n [] results w (omega arith)
  run_rounds-Drains (suc n) (job ∷ jobs) results w enough =
      go_on n job jobs results (process_one s job (open_queue jobs results) w) (run_rounds-Drains n)
        enough (process_one-Verdict s job (open_queue jobs results) w)
