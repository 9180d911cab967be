-- ===== src/Orchestrator/Final.antt =====
-- How a turn of orchestrator.py ends: with the final event, once.
use voyagent.Prelude.{
  ℕ, ◌≡◌, refl, subst, Bool, not, ◌||◌, Option, none, some, List, [], ◌∷◌, ◌++◌, if_elim,
  Option-elim, All, All-append,
}
use voyagent.Prelude.Text.{Text, codes, contains, is_empty, eq_text, text_key}
use voyagent.Prelude.Dict.{Dict}
use voyagent.RateLimiter.{Scope}
use voyagent.Tools.{Context}
use voyagent.AgentLoop.{
  Event, text_delta, tool_use_event, tool_result_event, approval_request, error_event, final_event,
  Override, Loop, Run, Message, user_text, run_agent_turn,
}
use voyagent.AgentLoop.Pause.{IsPlain, Shows, Steps, run_agent_turn-Steps}
use voyagent.Orchestrator.{
  Services, Session, limited_events, broke_events, Turn, Consumed, consume, is_request, on_tool_use,
  rate_gate, budget_gate, run_own, run_agent, run_admitted, run_turn, context_of, loop_of,
  sync_history,
}

-- An event before the end of a turn.
abbrev pub IsInner : {J : Type 0} → Event J → Type 0
IsInner final_event = ⊥
IsInner (approval_request _ _ _ _) = Unit
IsInner (text_delta _) = Unit
IsInner (tool_use_event _ _ _) = Unit
IsInner (tool_result_event _ _ _) = Unit
IsInner (error_event _) = Unit

Shows-IsInner :
    {J : Type 0} (base : List (Message J)) (e : Event J) (messages : List (Message J))
    → Shows base e messages
    → IsInner e
Shows-IsInner base (approval_request _ _ _ _) messages p = tt
Shows-IsInner base (text_delta _) messages p = tt
Shows-IsInner base (tool_use_event _ _ _) messages p = tt
Shows-IsInner base (tool_result_event _ _ _) messages p = tt
Shows-IsInner base (error_event _) messages p = tt
Shows-IsInner base final_event messages p = p

pub consume-IsInner :
    {W J : Type 0} (base : List (Message J)) (steps : List (Event J × Loop W J)) (end : Loop W J)
    → Steps base (steps, end)
    → All IsInner (consume steps end).events
unfolding consume
consume-IsInner base [] end p = tt
consume-IsInner base ((e, l) ∷ steps) end (p, ps) =
    if_elim (is_request e) (λ (c : Consumed _ _). All IsInner c.events)
      (λ asks. (Shows-IsInner base e l.messages p, tt))
      (λ goes. (Shows-IsInner base e l.messages p, consume-IsInner base steps end ps))

limited-IsInner : (J : Type 0) (o : Option Scope) → All IsInner (limited_events {J = J} o)
limited-IsInner J none = tt
limited-IsInner J (some scope) = (tt, tt)

broke-IsInner : (J : Type 0) (limit : ℕ) (o : Option ℕ) → All IsInner (broke_events {J = J} limit o)
broke-IsInner J limit none = tt
broke-IsInner J limit (some used) = (tt, tt)

module _ {W J : Type 0} (svc : Services W J) where
  abbrev Polite : Option (Override J) → Type 0
  Polite none = Unit
  Polite (some o) = All IsPlain o.shown

  -- What the orchestrator shows of the calls that it intercepts.
  pub on_tool_use-IsPlain :
      (name : Text) (input : J) (o : Override J)
      → on_tool_use svc name input ≡ some o
      → All IsPlain o.shown
  unfolding on_tool_use
  on_tool_use-IsPlain name input o e = subst Polite e (
      if_elim (eq_text name (codes "handoff")) Polite
        (λ handoff.
          if_elim (contains (svc.text_field input (codes "domain")) svc.domains)
            (λ x. Polite (some x)) (λ known. tt) (λ unknown. (tt, tt)))
        (λ other.
          if_elim (eq_text name (codes "clarify")) Polite (λ clarify. (tt, tt)) (λ tool. tt)))

  run_own-IsInner : (ctx : Context) (t : Turn W J) → All IsInner (run_own svc ctx t).events
  unfolding run_own
  run_own-IsInner ctx t =
      let r : Run W J =
        run_agent_turn (svc.client none) svc.env svc.registry (on_tool_use svc) ctx
          (loop_of t t.history) in
      consume-IsInner t.history r.0 r.1 (
        run_agent_turn-Steps (svc.client none) svc.env svc.registry (on_tool_use svc) ctx
          on_tool_use-IsPlain (loop_of t t.history))

  run_agent-IsInner :
      (ctx : Context) (domain goal user_message : Text) (t : Turn W J)
      → All IsInner (run_agent svc ctx domain goal user_message t).0.events
  unfolding run_agent
  run_agent-IsInner ctx domain goal user_message t =
      let seed =
        codes "[handoff from orchestrator]\nGoal: "
        ++ (goal ++ (codes "\nUser said: " ++ user_message)) in
      let l = loop_of t (t.history ++ user_text seed ∷ []) in
      let r : Run W J =
        run_agent_turn (svc.client (some domain)) svc.env svc.registry (λ name input. none) ctx l in
      consume-IsInner l.messages r.0 r.1 (
        run_agent_turn-Steps (svc.client (some domain)) svc.env svc.registry (λ name input. none)
          ctx (λ name input o e. subst Polite e tt) l)

  -- Events that end with the final event, and hold no other.
  abbrev pub EndsOnce : List (Event J) → Type 0
  EndsOnce events =
      (shown : List (Event J)) × (events ≡ shown ++ final_event ∷ []) × All IsInner shown

  run_admitted_ends :
      (session : Session) (user_message : Text) (approvals : Dict Text Bool) (role turn_id : Text)
      (t : Turn W J)
      → EndsOnce (run_admitted svc session user_message approvals role turn_id t).0
  unfolding run_admitted
  run_admitted_ends session user_message approvals role turn_id t =
      let ctx = context_of session approvals role turn_id in
      let asked = t.history ++ user_text user_message ∷ [] in
      let t0 : Turn W J = record t { history = asked } in
      let own = run_own svc ctx t0 in
      let t' : Turn W J = record t {
        state = own.loop.state;
        history = sync_history asked own.loop.messages;
      } in
      let mine = run_own-IsInner ctx t0 in
      (
        _,
        refl,
        Option-elim own.loop.handoff (λ (r : List (Event J) × Turn W J). All IsInner r.0)
            (λ stays. mine)
            (λ target moves.
              if_elim (own.paused || own.errored)
                (λ (r : List (Event J) × Turn W J). All IsInner r.0) (λ stops. mine)
                (λ goes.
                  All-append IsInner own.events
                    (run_agent svc ctx target.0 target.1 user_message t').0.events mine
                    (run_agent-IsInner ctx target.0 target.1 user_message t'))),
      )

  rate_gate-IsInner : (session : Session) (t : Turn W J) → All IsInner (rate_gate svc session t).0
  unfolding rate_gate
  rate_gate-IsInner session t =
      if_elim svc.rate_limiter (λ (r : List (Event J) × Turn W J). All IsInner r.0)
        (λ on. limited-IsInner J _) (λ off. tt)

  budget_gate-IsInner : (session : Session) (t : Turn W J) → All IsInner (budget_gate svc session t)
  unfolding budget_gate
  budget_gate-IsInner session t =
      Option-elim (svc.settings session.tenant_id t.state.world) (All IsInner) (λ missing. tt)
        (λ s found.
          Option-elim s.daily_token_budget (All IsInner) (λ no_limit. tt)
            (λ limit limited.
              if_elim svc.cost_tracker (All IsInner) (λ on. broke-IsInner J limit _) (λ off. tt)))

  -- Every turn emits the final event exactly once, and last: whether a gate refuses it, an agent
  -- takes it over, it pauses for an approval or the stream fails.
  pub run_turn_ends :
      (session : Session) (user_message : Text) (approvals : Dict Text Bool) (role turn_id : Text)
      (t : Turn W J)
      → EndsOnce (run_turn svc session user_message approvals role turn_id t).0
  unfolding run_turn
  run_turn_ends session user_message approvals role turn_id t =
      let t' = (rate_gate svc session t).1 in
      let Ends : List (Event J) × Turn W J → Type 0 = λ r. EndsOnce r.0 in
      if_elim (not (is_empty (rate_gate svc session t).0)) Ends
        (λ limited. (_, refl, rate_gate-IsInner session t))
        (λ open_rate.
          if_elim (not (is_empty (budget_gate svc session t'))) Ends
            (λ broke. (_, refl, budget_gate-IsInner session t'))
            (λ open_budget. run_admitted_ends session user_message approvals role turn_id t'))
