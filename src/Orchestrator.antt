-- ===== src/Orchestrator.antt =====
-- The controller of a turn: `Orchestrator.run_turn` of
-- services/agent_runtime/src/voyagent_agent_runtime/orchestrator.py, and the domain agents that it
-- hands over to (domain_agents/accounting.py; ticketing_visa.py and hotels_holidays.py are the same
-- but for prompt and tools). Exceptions that the source only logs are left out: the settings of a
-- tenant are `none` where their lookup fails, and the parameters do not raise.
mod Types
pub mod Final
pub mod Limits
mod Tests
unfoldable pub use Types.*
use voyagent.Prelude.{
  ℕ, zero, suc, ◌+◌, Bool, true, false, not, ◌&&◌, ◌||◌, Option, none, some, List, [], ◌∷◌, ◌++◌,
  map, if◌then◌else◌, length, drop, ◌==◌,
}
use voyagent.Prelude.Text.{Text, codes, contains, is_empty, eq_text, text_key}
use voyagent.Prelude.Dict.{Dict}
use voyagent.RateLimiter
use voyagent.RateLimiter.{Events, Scope}
use voyagent.CostTracker.{TurnCost, enforce_daily_budget, build_turn_cost, record_cost}
use voyagent.Tools.{Context}
use voyagent.AgentLoop.{
  Client, Message, user_text, Event, text_delta, tool_use_event, tool_result_event,
  approval_request, error_event, final_event, tenant_rate_limited, budget_exceeded, unknown_domain,
  Override, Loop, run_agent_turn,
}

-- The limits of a tenant, by default 60 in a minute and 1000 in an hour.
abbrev pub limits_of : Option Settings → ℕ × ℕ
limits_of none = (60, 1000)
limits_of (some s) = (s.rate_limit_per_minute, s.rate_limit_per_hour)

abbrev pub limited_events : {J : Type 0} → Option Scope → List (Event J)
limited_events none = []
limited_events (some scope) = error_event (tenant_rate_limited scope) ∷ []

abbrev pub broke_events : {J : Type 0} → ℕ → Option ℕ → List (Event J)
broke_events limit none = []
broke_events limit (some used) = error_event (budget_exceeded limit used) ∷ []

-- The context of the turn's tools: `approvals or session.approvals_map()`.
abbrev pub context_of : Session → Dict Text Bool → Text → Text → Context
context_of session approvals role turn_id = record {
  tenant_id = session.tenant_id;
  actor_id = session.actor_id;
  actor_kind = session.actor_kind;
  session_id = session.id;
  turn_id = turn_id;
  actor_role = role;
  approvals = if is_empty approvals then session.approvals_map else approvals;
}

abbrev pub loop_of : {W J : Type 0} → Turn W J → List (Message J) → Loop W J
loop_of t working = record { state = t.state; messages = working; handoff = none }

-- `_sync_history`: what the loop appended to its copy goes back to the session.
abbrev pub sync_history : {J : Type 0} → List (Message J) → List (Message J) → List (Message J)
sync_history history working = history ++ drop (length history) working

module _ {W J : Type 0} (svc : Services W J) where
  -- `_on_tool_use`: `handoff` and `clarify` are handled by the orchestrator itself.
  unfoldable pub on_tool_use : Text → J → Option (Override J)
  on_tool_use name input =
      let domain = svc.text_field input (codes "domain") in
      if eq_text name (codes "handoff")
      then some (
          if contains domain svc.domains
          then record { shown = []; target = some (domain, svc.text_field input (codes "goal")) }
          else record { shown = error_event (unknown_domain domain) ∷ []; target = none })
      else if eq_text name (codes "clarify")
      then some (record {
        shown = text_delta (svc.text_field input (codes "question")) ∷ [];
        target = none;
      })
      else none

  -- The events of the rate gate, and the limiter after it; no limiter lets all turns through.
  unfoldable pub rate_gate : Session → Turn W J → List (Event J) × Turn W J
  rate_gate session t =
      let limits = limits_of (svc.settings session.tenant_id t.state.world) in
      let (limiter, outcome) =
        RateLimiter.check t.limiter session.tenant_id (svc.monotonic t.state.world) limits.0
          limits.1 in
      if svc.rate_limiter then (limited_events outcome, record t { limiter = limiter }) else ([], t)

  -- The events of the budget gate: a budget counts only with a tracker and with settings.
  unfoldable pub budget_gate : Session → Turn W J → List (Event J)
  budget_gate session t = elim (svc.settings session.tenant_id t.state.world) [
    | none ↦ []
    | some s ↦ elim s.daily_token_budget [
      | none ↦ []
      | some limit ↦
          if svc.cost_tracker
          then broke_events limit (
              enforce_daily_budget session.tenant_id (svc.env.reading t.state.world).now
                (some limit) t.costs)
          else []
    ]
  ]

  -- The orchestrator's own part of the turn, up to `_sync_history`.
  unfoldable pub run_own : Context → Turn W J → Consumed W J
  run_own ctx t =
      let (steps, end) =
        run_agent_turn (svc.client none) svc.env svc.registry on_tool_use ctx
          (loop_of t t.history) in
      consume steps end

  -- A domain agent's `run`. It returns at an approval request, before its messages are persisted.
  unfoldable pub run_agent : Context → Text → Text → Text → Turn W J → Consumed W J × Turn W J
  run_agent ctx domain goal user_message t =
      let seed =
        codes "[handoff from orchestrator]\nGoal: "
        ++ (goal ++ (codes "\nUser said: " ++ user_message)) in
      let (steps, end) =
        run_agent_turn (svc.client (some domain)) svc.env svc.registry (λ name input. none) ctx
          (loop_of t (t.history ++ user_text seed ∷ [])) in
      let seen = consume steps end in
      (
        seen,
        record t {
          state = seen.loop.state;
          history =
              if seen.paused
              then t.history
              else t.history ++ drop (length t.history + 1) seen.loop.messages;
        },
      )

  -- The cost of the turn, where the client shows usage.
  unfoldable pub record_usage : Session → Text → Turn W J → Turn W J
  record_usage session turn_id t =
      let (model, input_tokens, output_tokens) = svc.usage t.state.world in
      let cost =
        build_turn_cost session.tenant_id session.id turn_id model input_tokens output_tokens
          (svc.env.reading t.state.world).now in
      if svc.cost_tracker && not (input_tokens == 0 && output_tokens == 0)
      then record t { costs = record_cost cost t.costs }
      else t

  -- The turn once both gates are passed.
  unfoldable pub run_admitted :
      Session → Text → Dict Text Bool → Text → Text → Turn W J → List (Event J) × Turn W J
  run_admitted session user_message approvals role turn_id t =
      let ctx = context_of session approvals role turn_id in
      let asked = t.history ++ user_text user_message ∷ [] in
      let own = run_own ctx (record t { history = asked }) in
      let t' = record t {
        state = own.loop.state;
        history = sync_history asked own.loop.messages;
      } in
      let (events, t'') : List (Event J) × Turn W J = elim own.loop.handoff [
        | none ↦ (own.events, t')
        | some (domain, goal) ↦
            if own.paused || own.errored
            then (own.events, t')
            else (let (seen, after) = run_agent ctx domain goal user_message t' in
                (own.events ++ seen.events, after))
      ] in
      (events ++ final_event ∷ [], record_usage session turn_id t'')

  -- `Orchestrator.run_turn`: its events, and what it leaves. `turn_id` is the fresh id of the turn.
  unfoldable pub run_turn :
      Session → Text → Dict Text Bool → Text → Text → Turn W J → List (Event J) × Turn W J
  run_turn session user_message approvals role turn_id t =
      let (limited, t') = rate_gate session t in
      let broke = budget_gate session t' in
      if not (is_empty limited)
      then (limited ++ final_event ∷ [], t')
      else if not (is_empty broke)
      then (broke ++ final_event ∷ [], t')
      else run_admitted session user_message approvals role turn_id t'
