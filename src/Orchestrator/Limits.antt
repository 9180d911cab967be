-- ===== src/Orchestrator/Limits.antt =====
-- What the two gates of a turn of orchestrator.py let through, and what a refused turn leaves.
use voyagent.Prelude.{
  ℕ, ◌≤◌, ◌<◌, ◌≡◌, ◌≢◌, refl, sym, subst, ◌∙◌, Bool, true, Option, none, some, List, [], ◌∷◌, ◌++◌,
  Option-cases, arith, if◌then◌else◌, not, inl, inr,
}
use voyagent.Prelude.Text.{Text, is_empty}
use voyagent.Prelude.Dict.{Dict, none≢some, some_inj}
use voyagent.RateLimiter
use voyagent.RateLimiter.{Scope}
use voyagent.CostTracker.{TurnCost, tokens_for_tenant_today, enforce_daily_budget}
use voyagent.AgentLoop.{Event, error_event, final_event, tenant_rate_limited, budget_exceeded}
use voyagent.Orchestrator.{
  Settings, Services, Session, Turn, limited_events, broke_events, rate_gate, budget_gate,
  run_admitted, run_turn,
}

enforce-none :
    (tenant : Text) (now limit : ℕ) (rows : List TurnCost)
    → enforce_daily_budget tenant now (some limit) rows ≡ none
    → limit ≢ 0
    → tokens_for_tenant_today tenant now rows < limit
unfolding enforce_daily_budget
enforce-none tenant now limit rows h z = ground arith

enforce-some :
    (tenant : Text) (now limit u : ℕ) (rows : List TurnCost)
    → enforce_daily_budget tenant now (some limit) rows ≡ some u
    → (u ≡ tokens_for_tenant_today tenant now rows)
      × (limit ≤ tokens_for_tenant_today tenant now rows)
unfolding enforce_daily_budget
enforce-some tenant now limit u rows h = ground arith

module _ {W J : Type 0} (svc : Services W J) (session : Session) (user_message : Text)
    (approvals : Dict Text Bool) (role turn_id : Text) (t : Turn W J) (s : Settings) where
  -- The verdict of the limiter, and the turn after it.
  abbrev verdict : Option Scope
  verdict =
      (RateLimiter.check t.limiter session.tenant_id (svc.monotonic t.state.world)
        s.rate_limit_per_minute s.rate_limit_per_hour).1

  abbrev counted : Turn W J
  counted = record t {
    limiter =
        (RateLimiter.check t.limiter session.tenant_id (svc.monotonic t.state.world)
          s.rate_limit_per_minute s.rate_limit_per_hour).0;
  }

  abbrev used : ℕ
  used = tokens_for_tenant_today session.tenant_id (svc.env.reading t.state.world).now t.costs

  -- How a turn passes the gates.
  pub data Gated : List (Event J) × Turn W J → Type 0 where
    too_many :
        (scope : Scope)
        → verdict ≡ some scope
        → Gated (error_event (tenant_rate_limited scope) ∷ final_event ∷ [], counted)
    too_dear :
        (limit : ℕ)
        → verdict ≡ none
        → s.daily_token_budget ≡ some limit
        → limit ≤ used
        → Gated (error_event (budget_exceeded limit used) ∷ final_event ∷ [], counted)
    admitted :
        verdict ≡ none
        → ((limit : ℕ) → s.daily_token_budget ≡ some limit → limit ≢ 0 → used < limit)
        → Gated (run_admitted svc session user_message approvals role turn_id counted)

  passed : Turn W J → List (Event J) → List (Event J) × Turn W J
  passed t' broke =
      if not (is_empty broke)
      then (broke ++ final_event ∷ [], t')
      else run_admitted svc session user_message approvals role turn_id t'

  rate_gate-verdict :
      svc.rate_limiter ≡ true
      → svc.settings session.tenant_id t.state.world ≡ some s
      → rate_gate svc session t ≡ (limited_events verdict, counted)
  unfolding rate_gate
  rate_gate-verdict r e = rw (r, e) refl

  budget_gate-none :
      svc.settings session.tenant_id t.state.world ≡ some s
      → s.daily_token_budget ≡ none
      → budget_gate svc session counted ≡ []
  unfolding budget_gate
  budget_gate-none e d = rw (budget_gate, e, d) refl

  budget_gate-some :
      (limit : ℕ)
      → svc.cost_tracker ≡ true
      → svc.settings session.tenant_id t.state.world ≡ some s
      → s.daily_token_budget ≡ some limit
      → budget_gate svc session counted
        ≡ broke_events limit (
            enforce_daily_budget session.tenant_id
              (svc.env.reading t.state.world).now
              (some limit)
              t.costs)
  unfolding budget_gate
  budget_gate-some limit c e d = rw (budget_gate, e, d, c) refl

  by_budget :
      svc.cost_tracker ≡ true
      → svc.settings session.tenant_id t.state.world ≡ some s
      → verdict ≡ none
      → (d : Option ℕ) → s.daily_token_budget ≡ d
      → Gated (passed counted (budget_gate svc session counted))
  unfolding passed
  by_budget c e v none d =
      subst (λ b. Gated (passed counted b)) (sym (budget_gate-none e d))
        (admitted v (λ limit h. absurd (none≢some limit (sym d ∙ h))))
  by_budget c e v (some limit) d =
      subst (λ b. Gated (passed counted b)) (sym (budget_gate-some limit c e d))
        (elim (Option-cases (
          enforce_daily_budget session.tenant_id (svc.env.reading t.state.world).now (some limit)
            t.costs)) [
              | inl within ↦ rw within (
                  admitted v (λ limit' h full.
                    subst (λ n. used < n) (some_inj limit limit' (sym d ∙ h))
                      (enforce-none session.tenant_id _ limit t.costs within
                        (λ z. full (sym (some_inj limit limit' (sym d ∙ h)) ∙ z)))))
              | inr (u, over) ↦ rw over (
                  let (same, most) = enforce-some session.tenant_id _ limit u t.costs over in
                  subst
                    (λ n. Gated (error_event (budget_exceeded limit n) ∷ final_event ∷ [], counted))
                    (sym same) (too_dear limit v d most))
            ])

  by_verdict :
      svc.cost_tracker ≡ true
      → svc.settings session.tenant_id t.state.world ≡ some s
      → (v : Option Scope) → verdict ≡ v
      → Gated (
          if not (is_empty (limited_events {J = J} v))
          then (limited_events v ++ final_event ∷ [], counted)
          else passed counted (budget_gate svc session counted))
  by_verdict c e none v = by_budget c e v s.daily_token_budget refl
  by_verdict c e (some scope) v = too_many scope v

  -- With a limiter, a cost tracker and settings: a turn is refused by the limiter, or else by a
  -- budget that the tokens of the day have reached, with one error and the final event, and then
  -- only the limiter has changed; else it runs, and the tokens of the day are
  -- below the budget, if there is one and it is not zero.
  pub run_turn-Gated :
      svc.rate_limiter ≡ true
      → svc.cost_tracker ≡ true
      → svc.settings session.tenant_id t.state.world ≡ some s
      → Gated (run_turn svc session user_message approvals role turn_id t)
  unfolding run_turn passed
  run_turn-Gated r c e =
      subst
        (λ (p : List (Event J) × Turn W J). Gated (
          if not (is_empty p.0)
          then (p.0 ++ final_event ∷ [], p.1)
          else passed p.1 (budget_gate svc session p.1)))
        (sym (rate_gate-verdict r e)) (by_verdict c e verdict refl)
