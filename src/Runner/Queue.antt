-- ===== src/Runner/Queue.antt =====
-- `InMemoryJobQueue` of services/browser_runner/src/voyagent_browser_runner/queue.py. The events that
-- wake a waiting client carry no more than the results do.
use voyagent.Prelude.{Bool, true, Option, none, some, List, [], ◌∷◌, ◌++◌, if◌then◌else◌}
use voyagent.Prelude.Text.{Text, text_key}
use voyagent.Prelude.Dict.{Dict, lookup, insert}
use voyagent.Runner.Types.{Job, JobResult}

pub record JobQueue (J : Type 0) : Type 0 where
  pub queue : List (Job J)
  pub results : Dict Text (JobResult J)
  pub closed : Bool

-- None is the `RuntimeError` of a closed queue.
unfoldable pub enqueue : {J : Type 0} → Job J → JobQueue J → Option (JobQueue J)
enqueue job q = if q.closed then none else some (record q { queue = q.queue ++ (job ∷ []) })

-- The first job, or none where there is none in time.
unfoldable pub dequeue : {J : Type 0} → JobQueue J → Option (Job J) × JobQueue J
dequeue q =
    if q.closed
    then (none, q)
    else elim q.queue [ [] ↦ (none, q) | job ∷ jobs ↦ (some job, record q { queue = jobs }) ]

unfoldable pub put_result : {J : Type 0} → JobResult J → JobQueue J → JobQueue J
put_result result q = record q { results = insert result.job_id result q.results }

-- `woken` is the queue at the moment the event is set, none if that does not happen in time.
unfoldable pub wait_for_result :
    {J : Type 0} → Text → Option (JobQueue J) → JobQueue J → Option (JobResult J)
wait_for_result job_id woken q = elim (lookup job_id q.results) [
  | some result ↦ some result
  | none ↦ elim woken [ none ↦ none | some q' ↦ lookup job_id q'.results ]
]

unfoldable pub aclose : {J : Type 0} → JobQueue J → JobQueue J
aclose q = record q { closed = true }
