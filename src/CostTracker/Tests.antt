-- ===== src/CostTracker/Tests.antt =====
-- Costs and budgets at concrete turns.
use voyagent.Prelude.{◌≡◌, refl, [], ◌∷◌}
use voyagent.Prelude.Text.{codes}
use voyagent.CostTracker.{
  TurnCost, estimate_cost_usd, build_turn_cost, tokens_for_tenant_today, enforce_daily_budget,
}

abbrev turn : TurnCost
unfolding build_turn_cost estimate_cost_usd
turn =
    build_turn_cost (codes "t1") (codes "s") (codes "u") (codes "claude-haiku-4-5-20251001") 600 200
      5_000

haiku_cost : estimate_cost_usd (codes "claude-haiku-4-5-20251001") 600 200 ≡ 128_000
unfolding estimate_cost_usd
haiku_cost = refl

three_turns : tokens_for_tenant_today (codes "t1") 9_000 (turn ∷ turn ∷ turn ∷ []) ≡ 2_400
unfolding tokens_for_tenant_today enforce_daily_budget build_turn_cost estimate_cost_usd
three_turns = refl
