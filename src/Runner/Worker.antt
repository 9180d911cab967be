-- ===== src/Runner/Worker.antt =====
-- `Worker` of services/browser_runner/src/voyagent_browser_runner/worker.py. The browser, the handlers
-- and the artifacts act on a world `W`.
use voyagent.Prelude.{
  ℕ, zero, suc, ◌+◌, ◌-◌, ◌*◌, ◌^◌, Bool, true, false, ◌&&◌, Option, none, some, List, [], ◌∷◌,
  ◌++◌, if◌then◌else◌, ltb, leb, ◌==◌,
}
use voyagent.Prelude.Text.{Text, codes}
use voyagent.Runner.Types.{
  JobKind, kind_text, JobStatus, queued, succeeded, failed, Job, JobResult, is_expired, Failure,
}
use voyagent.Runner.Queue.{JobQueue, enqueue, dequeue, put_result, wait_for_result}

-- `_namespace_for`: the part before the first dot.
unfoldable pub namespace_for : Text → Text
namespace_for [] = []
namespace_for (c ∷ kind) = let rest = namespace_for kind in if c == 46 then [] else c ∷ rest

-- Whether a text occurs in another.
abbrev pub is_prefix : Text → Text → Bool
is_prefix [] t = true
is_prefix (c ∷ s) [] = false
is_prefix (c ∷ s) (d ∷ t) = c == d && is_prefix s t

abbrev pub occurs : Text → Text → Bool
occurs s [] = is_prefix s []
occurs s (d ∷ t) = let rest = occurs s t in if is_prefix s (d ∷ t) then true else rest

-- `str.lower` of a class name, which is ASCII.
abbrev pub lower : Text → Text
lower [] = []
lower (c ∷ s) = (if leb 65 c && leb c 90 then c + 32 else c) ∷ lower s

unfoldable pub looks_transient : Failure → Bool
looks_transient failure =
    if failure.is_timeout_or_connection
    then true
    else if occurs (codes "timeout") (lower failure.name)
    then true
    else if occurs (codes "network") (lower failure.name)
    then true
    else occurs (codes "temporar") (lower failure.name)

-- How the attempt inside the pool ends: with outputs, after the timeout, with an exception of the
-- handler, or with one of the pool itself.
pub data Ended (J : Type 0) : Type 0 where
  finished : J → Ended J
  late : Ended J
  raised : Failure → Ended J
  unreachable : Failure → Ended J

-- What the worker is given. `no_handler` is the text of the `KeyError` of `get_handler` for a kind that
-- it does not know; `resolve_creds` reads credentials, or raises (none); `perform` acquires a page of the
-- job's tenant and namespace and runs the handler on it.
pub record Setting (J C W : Type 0) : Type 0 where
  pub retry_limit : ℕ
  pub now : W → ℕ
  pub clock_ms : W → ℕ
  pub sleep : ℕ → W → W
  pub no_handler : JobKind → Option Text
  pub resolve_creds : Text → W → Option C × W
  pub perform : Job J → Text → C → W → Ended J × W
  pub capture_failure : Job J → Failure → W → List Text × W

abbrev pub timed_out : Failure
timed_out = record {
  is_timeout_or_connection = true;
  name = codes "TimeoutError";
  message = codes "job_timeout_exceeded";
}

-- `2 ** attempts`, at most 30.
unfoldable pub backoff : ℕ → ℕ
backoff attempts = if leb (2 ^ attempts) 30 then 2 ^ attempts else 30

abbrev pub retry_of : {J : Type 0} → Job J → Job J
retry_of job = record job { attempts = job.attempts + 1 }

abbrev pub retry_result : {J : Type 0} → Job J → Failure → List Text → ℕ → JobResult J
retry_result job failure artifact_uris duration_ms = record {
  job_id = job.id;
  status = queued;
  outputs = none;
  error = some (codes "transient_retry: " ++ failure.message);
  artifact_uris = artifact_uris;
  duration_ms = duration_ms;
  completed_at = none;
}

module _ {J C W : Type 0} where
  -- A result of a job that is done with, at the time of the world.
  abbrev pub final_result :
      Setting J C W → Job J → JobStatus → Option J → Option Text → List Text → ℕ → W → JobResult J
  final_result s job status outputs error artifact_uris duration_ms w = record {
    job_id = job.id;
    status = status;
    outputs = outputs;
    error = error;
    artifact_uris = artifact_uris;
    duration_ms = duration_ms;
    completed_at = some (s.now w);
  }

  -- `_handle_failure`. No result is the `RuntimeError` of a queue that was closed meanwhile.
  unfoldable pub handle_failure :
      Setting J C W
      → Job J
      → Failure
      → ℕ
      → List Text
      → JobQueue J
      → W
      → Option (JobResult J) × JobQueue J × W
  handle_failure s job failure started artifact_uris q w =
      if looks_transient failure && ltb job.attempts s.retry_limit
      then (let w' = s.sleep (backoff (job.attempts + 1)) w in
          elim (enqueue (retry_of job) q) [
            | none ↦ (none, q, w')
            | some q' ↦
                (some (retry_result job failure artifact_uris (s.clock_ms w' - started)), q', w')
          ])
      else (let result =
            final_result s job failed none (some (failure.name ++ codes ": " ++ failure.message))
              artifact_uris (s.clock_ms w - started) w in
          (some result, put_result result q, w))

  -- A failure inside the acquired page is captured there; one of the pool is not.
  unfoldable pub settle :
      Setting J C W → Job J → ℕ → JobQueue J → Ended J → W → Option (JobResult J) × JobQueue J × W
  settle s job started q (finished outputs) w =
      let result = final_result s job succeeded (some outputs) none [] (s.clock_ms w - started) w in
      (some result, put_result result q, w)
  settle s job started q late w =
      let (uris, w') = s.capture_failure job timed_out w in
      handle_failure s job timed_out started uris q w'
  settle s job started q (raised failure) w =
      let (uris, w') = s.capture_failure job failure w in
      handle_failure s job failure started uris q w'
  settle s job started q (unreachable failure) w = handle_failure s job failure started [] q w

  unfoldable pub process_one :
      Setting J C W → Job J → JobQueue J → W → Option (JobResult J) × JobQueue J × W
  process_one s job q w =
      if is_expired job (s.now w)
      then (let result = final_result s job failed none (some (codes "deadline_exceeded")) [] 0 w in
          (some result, put_result result q, w))
      else elim (s.no_handler job.kind) [
        | some why ↦
            let result =
              final_result s job failed none (some (codes "no_handler: " ++ why)) [] 0 w in
            (some result, put_result result q, w)
        | none ↦
            let (credentials, w1) = s.resolve_creds job.tenant_credentials_ref w in
            elim credentials [
              | none ↦ (none, q, w1)
              | some c ↦
                  let (ended, w2) = s.perform job (namespace_for (kind_text job.kind)) c w1 in
                  settle s job (s.clock_ms w) q ended w2
            ]
      ]

  -- Rounds of `run_forever`: a job is taken, if there is one, and processed. An exception ends the loop.
  unfoldable pub run_rounds : ℕ → Setting J C W → JobQueue J → W → JobQueue J × W
  run_rounds zero s q w = (q, w)
  run_rounds (suc n) s q w =
      let (job, q') = dequeue q in
      elim job [
        | none ↦ run_rounds n s q' w
        | some j ↦
            let (result, q'', w') = process_one s j q' w in
            elim result [ none ↦ (q'', w') | some r ↦ run_rounds n s q'' w' ]
      ]

  -- `BrowserRunnerClient.submit`, of a job with its id; `served` is what the workers make of the queue
  -- while the client waits, none where its time is over before.
  unfoldable pub submit :
      Setting J C W
      → Job J
      → ℕ
      → (JobQueue J → Option (JobQueue J))
      → JobQueue J
      → W
      → Option (JobResult J)
  submit s job timeout_s served q w = elim (enqueue job q) [
    | none ↦ none
    | some q' ↦ elim (wait_for_result job.id (served q') q') [
      | some result ↦ some result
      | none ↦
          some (
            final_result s job failed none (some (codes "client_timeout")) [] (timeout_s * 1_000) w)
    ]
  ]
