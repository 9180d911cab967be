-- ===== src/Orchestrator/Types.antt =====
-- The data of a turn: `Orchestrator` of
-- services/agent_runtime/src/voyagent_agent_runtime/orchestrator.py.
use voyagent.Prelude.{ℕ, Bool, true, false, ◌||◌, Option, List, [], ◌∷◌, if◌then◌else◌}
use voyagent.Prelude.Text.{Text}
use voyagent.Prelude.Dict.{Dict}
use voyagent.RateLimiter.{Events}
use voyagent.CostTracker.{TurnCost}
use voyagent.Tools.{ActorKind, Tool, State, Externals}
use voyagent.AgentLoop.{
  Client, Message, Event, text_delta, tool_use_event, tool_result_event, approval_request,
  error_event, final_event, Loop,
}

-- The tenant settings that gate a turn.
pub record Settings : Type 0 where
  pub rate_limit_per_minute : ℕ
  pub rate_limit_per_hour : ℕ
  pub daily_token_budget : Option ℕ

-- What the orchestrator is built from. `text_field` is `str(tool_input.get(key, "")).strip()`,
-- `client` the Anthropic client with
-- the system prompt and the `tool_names` of the orchestrator, `none`, or of the agent of a domain:
-- both are fixed for an agent, and the loop only passes them to `client.stream`. `usage` is the model name and token counts that the client shows after a turn.
pub record Services (W J : Type 0) : Type 0 where
  pub client : Option Text → Client W J
  pub env : Externals W J
  pub registry : Dict Text (Tool W J)
  pub domains : List Text
  pub settings : Text → W → Option Settings
  pub rate_limiter : Bool
  pub cost_tracker : Bool
  pub monotonic : W → ℕ
  pub text_field : J → Text → Text
  pub usage : W → Text × ℕ × ℕ

-- The part of a session that a turn only reads.
pub record Session : Type 0 where
  pub id : Text
  pub tenant_id : Text
  pub actor_id : Text
  pub actor_kind : ActorKind
  pub approvals_map : Dict Text Bool

-- What a turn changes: the state of the tools, the session's `message_history`, the rate limiter
-- and the cost tracker.
pub record Turn (W J : Type 0) : Type 0 where
  pub state : State W J
  pub history : List (Message J)
  pub limiter : Events
  pub costs : List TurnCost

-- What the consumer of a generator has seen, and the state in which it left it.
pub record Consumed (W J : Type 0) : Type 0 where
  pub events : List (Event J)
  pub loop : Loop W J
  pub paused : Bool
  pub errored : Bool

abbrev pub is_request : {J : Type 0} → Event J → Bool
is_request (approval_request _ _ _ _) = true
is_request (text_delta _) = false
is_request (tool_use_event _ _ _) = false
is_request (tool_result_event _ _ _) = false
is_request (error_event _) = false
is_request final_event = false

abbrev pub is_error_event : {J : Type 0} → Event J → Bool
is_error_event (error_event _) = true
is_error_event (approval_request _ _ _ _) = false
is_error_event (text_delta _) = false
is_error_event (tool_use_event _ _ _) = false
is_error_event (tool_result_event _ _ _) = false
is_error_event final_event = false

-- `async for ev in …: yield ev`, which breaks at an approval request and notes errors.
unfoldable pub consume : {W J : Type 0} → List (Event J × Loop W J) → Loop W J → Consumed W J
consume [] end = record { events = []; loop = end; paused = false; errored = false }
consume ((e, l) ∷ steps) end =
    let rest = consume steps end in
    if is_request e
    then record { events = e ∷ []; loop = l; paused = true; errored = false }
    else record {
      events = e ∷ rest.events;
      loop = rest.loop;
      paused = rest.paused;
      errored = is_error_event e || rest.errored;
    }
