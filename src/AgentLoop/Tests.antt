-- ===== src/AgentLoop/Tests.antt =====
-- A turn with one tool call, against a client that answers from a script in the world: the number
-- of calls of the model so far.
use voyagent.Prelude.{
  ℕ, ◌+◌, ◌≡◌, refl, Bool, true, false, none, some, List, [], ◌∷◌, ◌++◌, ◌==◌, if◌then◌else◌,
}
use voyagent.Prelude.Text.{Text, codes, text_key}
use voyagent.Prelude.Dict.{Dict}
use voyagent.Tools.{Tool, Context, human, Externals, returned}
use voyagent.AgentLoop.{
  Client, text_block, tool_use, text_event, message_stop, Message, user_text, Override, Loop,
  max_tool_loops, run_agent_turn,
}
use voyagent.AgentLoop.Transcript.{Grown, run_agent_turn-Grown}
use voyagent.AgentLoop.Pause.{Steps, run_agent_turn-Steps}

-- It is limited at first, then calls a tool, then stops.
abbrev pub client : Client ℕ ℕ
client = record {
  stream = λ messages w. (
    w + 1,
    (if w == 0
        then record {
          yielded = text_event (codes "par") ∷ [];
          failure = some (record {
            mro = codes "RateLimitError" ∷ [];
            retry_after = none;
            rendered = codes "429";
          });
        }
        else if w == 1
        then record {
          yielded =
              text_event (codes "hello")
              ∷ message_stop (record {
                stop_reason = codes "tool_use";
                content = tool_use (codes "u1") (codes "book") 5 ∷ [];
              })
              ∷ [];
          failure = none;
        }
        else record {
          yielded =
              message_stop
                (record { stop_reason = codes "end_turn"; content = text_block (codes "bye") ∷ [] })
              ∷ [];
          failure = none;
        }),
  );
  last_final_message = λ w. none;
  sleep = λ delay w. w;
  is_falsy = λ j. j == 0;
}

abbrev pub env : Externals ℕ ℕ
env = record {
  input_error = λ schema x. none;
  output_error = λ schema x. none;
  approval_summaries = [];
  brief = λ x. codes "x";
  reading = λ w. record { id = w ∷ []; now = w };
  is_dict = λ x. true;
  empty_dict = 0;
  jsonable = λ x. x;
}

-- A tool that needs an approval, or none.
abbrev pub registry : Bool → Dict Text (Tool ℕ ℕ)
registry gated =
    (
      codes "book",
      record {
        spec = record {
          name = codes "book";
          input_schema = 0;
          output_schema = none;
          side_effect = gated;
          approval_required = gated;
          approval_roles = [];
        };
        handler = λ input ctx hint w. (w, returned 7);
      },
    )
    ∷ []

abbrev pub context : Context
context = record {
  tenant_id = codes "t";
  actor_id = codes "a";
  actor_kind = human;
  session_id = codes "s";
  turn_id = codes "t-1";
  actor_role = codes "agent";
  approvals = [];
}

abbrev pub begin : Loop ℕ ℕ
begin = record {
  state = record { world = 0; audits = []; last_output_error = none };
  messages = user_text (codes "hi") ∷ [];
  handoff = none;
}

run_agent_turn-Grown_example :
    (tail : List (Message ℕ)) × ((run_agent_turn client env
        (registry false)
        (λ name input. none)
        context
        begin).1.messages
      ≡ begin.messages ++ tail)
    × Grown client max_tool_loops tail
run_agent_turn-Grown_example =
    run_agent_turn-Grown client env (registry false) (λ name input. none) context
      (λ name input. refl) begin

run_agent_turn-Steps_example :
    Steps begin.messages
      (run_agent_turn client env (registry true) (λ name input. none) context begin)
run_agent_turn-Steps_example =
    run_agent_turn-Steps client env (registry true) (λ name input. none) context
      (λ name input o e. elim (none≢some o e) [ ]) begin
  where
    none≢some : (o : Override ℕ) → none ≡ some o → ⊥
    none≢some o e = cc
