-- ===== src/Orchestrator/Tests.antt =====
-- A turn whose only tool call needs an approval.
use voyagent.Prelude.{ℕ, ◌+◌, refl, true, none, some, [], ◌∷◌, ◌==◌}
use voyagent.Prelude.Text.{codes, text_key}
use voyagent.Tools.{human, Externals, returned}
use voyagent.AgentLoop.{Client, tool_use, message_stop}
use voyagent.Orchestrator.{Settings, Services, Session, Turn, run_turn}
use voyagent.Orchestrator.Final.{EndsOnce, run_turn_ends}
use voyagent.Orchestrator.Limits.{Gated, run_turn-Gated}

abbrev client : Client ℕ ℕ
client = record {
  stream = λ messages w. (
    w + 1,
    record {
      yielded =
          message_stop (record {
            stop_reason = codes "tool_use";
            content = tool_use (codes "u1") (codes "book") 5 ∷ [];
          })
          ∷ [];
      failure = none;
    },
  );
  last_final_message = λ w. none;
  sleep = λ delay w. w;
  is_falsy = λ j. j == 0;
}

abbrev env : Externals ℕ ℕ
env = record {
  input_error = λ schema x. none;
  output_error = λ schema x. none;
  approval_summaries = [];
  brief = λ x. codes "x";
  reading = λ w. record { id = w ∷ []; now = w };
  is_dict = λ x. true;
  empty_dict = 0;
  jsonable = λ x. x;
}

abbrev limits : Settings
limits = record {
  rate_limit_per_minute = 2;
  rate_limit_per_hour = 5;
  daily_token_budget = some 1_000;
}

abbrev services : Services ℕ ℕ
services = record {
  client = λ agent. client;
  env = env;
  registry =
      (
        codes "book",
        record {
          spec = record {
            name = codes "book";
            input_schema = 0;
            output_schema = none;
            side_effect = true;
            approval_required = true;
            approval_roles = [];
          };
          handler = λ input ctx hint w. (w, returned 7);
        },
      )
      ∷ [];
  domains = codes "accounting" ∷ [];
  settings = λ tenant w. some limits;
  rate_limiter = true;
  cost_tracker = true;
  monotonic = λ w. w;
  text_field = λ j key. codes "accounting";
  usage = λ w. (codes "claude-opus-4-6", 3, 4);
}

abbrev session : Session
session = record {
  id = codes "s";
  tenant_id = codes "t";
  actor_id = codes "a";
  actor_kind = human;
  approvals_map = [];
}

abbrev start : Turn ℕ ℕ
start = record {
  state = record { world = 0; audits = []; last_output_error = none };
  history = [];
  limiter = [];
  costs = [];
}

run_turn_ends_example :
    EndsOnce services
      (run_turn services session (codes "book it") [] (codes "agent") (codes "t-1") start).0
run_turn_ends_example =
    run_turn_ends services session (codes "book it") [] (codes "agent") (codes "t-1") start

run_turn-Gated_example :
    Gated services session
      (codes "book it")
      []
      (codes "agent")
      (codes "t-1")
      start
      limits
      (run_turn services session (codes "book it") [] (codes "agent") (codes "t-1") start)
run_turn-Gated_example =
    run_turn-Gated services session (codes "book it") [] (codes "agent") (codes "t-1") start limits
      refl refl refl
