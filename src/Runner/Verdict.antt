-- ===== src/Runner/Verdict.antt =====
-- How `process_one` of services/browser_runner/src/voyagent_browser_runner/worker.py ends.

use voyagent.Prelude.{
  ℕ, ◌<◌, ◌≡◌, refl, Bool, true, false, ◌&&◌, Option, none, some, List, [], ◌∷◌, ◌++◌, ◌⊎◌, inl,
  inr, if_elim, Option-elim, ltb, arith,
}
use voyagent.Prelude.Text.{Text}
use voyagent.Runner.Types.{
  JobStatus, queued, running, succeeded, failed, cancelled, Job, JobResult, is_expired, Failure,
}
use voyagent.Runner.Queue.{JobQueue, enqueue, put_result}
use voyagent.Runner.Worker.{
  looks_transient, Ended, finished, late, raised, unreachable, Setting, timed_out, retry_of,
  handle_failure, settle, process_one,
}

abbrev pub is_final : JobStatus → Bool
is_final succeeded = true
is_final failed = true
is_final queued = false
is_final running = false
is_final cancelled = false

module _ {J C W : Type 0} (s : Setting J C W) (job : Job J) (q : JobQueue J) where
  -- The job is done: its one result is stored, and nothing else of the queue changes.
  abbrev pub Settled : Option (JobResult J) × JobQueue J × W → Type 0
  Settled x =
      (r : JobResult J) × (x.0 ≡ some r)
      × (r.job_id ≡ job.id)
      × (is_final r.status ≡ true)
      × (x.1 ≡ put_result r q)

  -- The job is in the queue again, as its last, with one attempt more; no result is stored.
  abbrev pub Retried : Option (JobResult J) × JobQueue J × W → Type 0
  Retried x =
      (r : JobResult J) × (x.0 ≡ some r)
      × (r.status ≡ queued)
      × (job.attempts < s.retry_limit)
      × (q.closed ≡ false)
      × (x.1 ≡ record q { queue = q.queue ++ (retry_of job ∷ []) })

  -- The call raises, of a closed queue or of the resolver of credentials, and the queue is as it was.
  abbrev pub Raises : Option (JobResult J) × JobQueue J × W → Type 0
  Raises x =
      (x.0 ≡ none)
      × (x.1 ≡ q)
      × ((q.closed ≡ true) ⊎ ((w : W) × ((s.resolve_creds job.tenant_credentials_ref w).0 ≡ none)))

  abbrev pub Verdict : Option (JobResult J) × JobQueue J × W → Type 0
  Verdict x = Settled x ⊎ (Retried x ⊎ Raises x)

  retried-Verdict :
      (r : JobResult J) (w : W)
      → r.status ≡ queued
      → job.attempts < s.retry_limit
      → Verdict (elim (enqueue (retry_of job) q) as (λ _. Option (JobResult J) × JobQueue J × W) [
        | none ↦ (none, q, w)
        | some q' ↦ (some r, q', w)
      ])
  unfolding enqueue
  retried-Verdict r w e below =
      if_elim q.closed
        (λ (o : Option (JobQueue J)).
          Verdict (elim o as (λ _. Option (JobResult J) × JobQueue J × W) [
            | none ↦ (none, q, w)
            | some q' ↦ (some r, q', w)
          ]))
        (λ shut. inr (inr (refl, refl, inl shut)))
        (λ free. inr (inl (r, refl, e, below, free, refl)))

  handle_failure-Verdict :
      (failure : Failure) (started : ℕ) (uris : List Text) (w : W)
      → Verdict (handle_failure s job failure started uris q w)
  unfolding handle_failure
  handle_failure-Verdict failure started uris w =
      if_elim (looks_transient failure && ltb job.attempts s.retry_limit) Verdict
        (λ again.
          retried-Verdict _ _ refl
            (below (looks_transient failure) job.attempts s.retry_limit again))
        (λ over. inl (_, refl, refl, refl, refl))
    where
      below : (t : Bool) (a l : ℕ) → (t && ltb a l) ≡ true → a < l
      below t a l h = ground arith

  settle-Verdict :
      (started : ℕ) (ended : Ended J) (w : W) → Verdict (settle s job started q ended w)
  unfolding settle
  settle-Verdict started (finished outputs) w = inl (_, refl, refl, refl, refl)
  settle-Verdict started late w = handle_failure-Verdict timed_out started _ _
  settle-Verdict started (raised failure) w = handle_failure-Verdict failure started _ _
  settle-Verdict started (unreachable failure) w = handle_failure-Verdict failure started [] w

  -- Every call of `process_one` ends in one of three ways: with a final result, succeeded or failed,
  -- that is stored under the job's id; with the job queued once more as the last, one attempt later,
  -- only below the retry limit and without a stored result; or it raises, with the queue unchanged,
  -- only if the queue is closed or the credentials cannot be resolved.
  pub process_one-Verdict : (w : W) → Verdict (process_one s job q w)
  unfolding process_one
  process_one-Verdict w =
      if_elim (is_expired job (s.now w)) Verdict (λ over. inl (_, refl, refl, refl, refl))
        (λ due.
          Option-elim (s.no_handler job.kind) Verdict
            (λ known.
              Option-elim (s.resolve_creds job.tenant_credentials_ref w).0 Verdict
                (λ failing. inr (inr (refl, refl, inr (w, failing))))
                (λ c resolved. settle-Verdict _ _ _))
            (λ why unknown. inl (_, refl, refl, refl, refl)))
