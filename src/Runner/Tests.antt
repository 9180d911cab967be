-- ===== src/Runner/Tests.antt =====
-- Two jobs: one times out twice and then succeeds, the other has expired.
use voyagent.Prelude.{
  ℕ, ◌+◌, ◌≡◌, refl, Option, none, some, List, [], ◌∷◌, if◌then◌else◌, ltb, arith,
}
use voyagent.Prelude.Text.{Text, codes, text_key}
use voyagent.Runner.Types.{vfs_fill_form, Job, is_expired}
use voyagent.Runner.Queue.{JobQueue, enqueue, dequeue, put_result}
use voyagent.Runner.Worker.{
  looks_transient, finished, late, Setting, backoff, handle_failure, settle, process_one,
  run_rounds,
}
use voyagent.Runner.Verdict.{Verdict, process_one-Verdict}
use voyagent.Runner.Drain.{open_queue, Drains, run_rounds-Drains}

-- The world counts seconds; an attempt before second 5 is too late.
abbrev setting : Setting Text Text ℕ
setting = record {
  retry_limit = 3;
  now = λ w. w;
  clock_ms = λ w. w;
  sleep = λ n w. w + n;
  no_handler = λ kind. none;
  resolve_creds = λ ref w. (some ref, w);
  perform = λ job name c w. (if ltb w 5 then late else finished name, w + 1);
  capture_failure = λ job failure w. ([], w);
}

abbrev job : Text → Option ℕ → Job Text
job id deadline = record {
  id = id;
  tenant_id = codes "t";
  kind = vfs_fill_form;
  inputs = [];
  tenant_credentials_ref = codes "ref";
  attempts = 0;
  created_at = 0;
  deadline_at = deadline;
}

abbrev jobs : List (Job Text)
jobs = job (codes "j1") none ∷ job (codes "j2") (some 2) ∷ []

abbrev drained : JobQueue Text × ℕ
drained = run_rounds 8 setting (open_queue jobs []) 0

-- The first job is tried at seconds 0, 3 and 8.
j1_succeeds : drained.1 ≡ 9
unfolding run_rounds dequeue process_one is_expired settle handle_failure looks_transient backoff
    enqueue put_result
j1_succeeds = refl

process_one-Verdict_example :
    Verdict setting
      (job (codes "j1") none)
      (open_queue [] [])
      (process_one setting (job (codes "j1") none) (open_queue [] []) 0)
process_one-Verdict_example =
    process_one-Verdict setting (job (codes "j1") none) (open_queue [] []) 0

run_rounds-Drains_example : Drains jobs [] (run_rounds 8 setting (open_queue jobs []) 0)
run_rounds-Drains_example = run_rounds-Drains setting (λ ref w. refl) 8 jobs [] 0 (omega arith)
