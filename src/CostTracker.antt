-- ===== src/CostTracker.antt =====
-- Per-turn cost accounting: services/agent_runtime/src/voyagent_agent_runtime/cost_tracker.py,
-- with the in-memory tracker. Amounts of dollars are counted in units of 10^-8, the scale of the
-- storage column; rates in cents per million tokens; time in microseconds from the epoch, UTC.
mod Tests
use voyagent.Prelude.{
  ℕ, ◌+◌, ◌*◌, ◌/◌, Bool, ◌&&◌, Option, none, some, List, [], ◌∷◌, ◌++◌, if◌then◌else◌, ◌==◌, leb,
  ◌=?◌,
}
use voyagent.Prelude.Text.{Text, codes, text_key}
use voyagent.Prelude.Dict.{Dict, lookup}

-- `TurnCost`.
pub record TurnCost : Type 0 where
  pub tenant_id : Text
  pub session_id : Text
  pub turn_id : Text
  pub model : Text
  pub input_tokens : ℕ
  pub output_tokens : ℕ
  pub cost_usd : ℕ
  pub created_at : ℕ

-- `MODEL_PRICING`: (input, output).
abbrev pub model_pricing : Dict Text (ℕ × ℕ)
model_pricing =
    (codes "claude-sonnet-4-5", (300, 1500))
    ∷ (codes "claude-opus-4-6", (1500, 7500))
    ∷ (codes "claude-haiku-4-5-20251001", (80, 400))
    ∷ []

-- `estimate_cost_usd`: the sum of cents, over a million tokens and a hundred cents to the dollar,
-- in units of 10^-8 dollars. An unknown model costs nothing.
unfoldable pub estimate_cost_usd : Text → ℕ → ℕ → ℕ
estimate_cost_usd model input_tokens output_tokens = elim (lookup model model_pricing) [
  | none ↦ 0
  | some (in_rate, out_rate) ↦
      (input_tokens * in_rate + output_tokens * out_rate) * 100_000_000 / (1_000_000 * 100)
]

-- `build_turn_cost`.
unfoldable pub build_turn_cost : Text → Text → Text → Text → ℕ → ℕ → ℕ → TurnCost
build_turn_cost tenant_id session_id turn_id model input_tokens output_tokens now = record {
  tenant_id = tenant_id;
  session_id = session_id;
  turn_id = turn_id;
  model = model;
  input_tokens = input_tokens;
  output_tokens = output_tokens;
  cost_usd = estimate_cost_usd model input_tokens output_tokens;
  created_at = now;
}

-- The UTC date of a reading.
abbrev pub day : ℕ → ℕ
day t = t / 86_400_000_000

-- `InMemoryCostTracker.record`.
abbrev pub record_cost : TurnCost → List TurnCost → List TurnCost
record_cost c rows = rows ++ c ∷ []

-- `sum(f(r) for r in rows if p(r))`.
abbrev pub sum_if : (TurnCost → Bool) → (TurnCost → ℕ) → List TurnCost → ℕ
sum_if p f [] = 0
sum_if p f (r ∷ rows) = let rest = sum_if p f rows in if p r then f r + rest else rest

unfoldable pub total_for_session : Text → List TurnCost → ℕ
total_for_session session_id = sum_if (λ r. r.session_id =? session_id) (λ r. r.cost_usd)

-- The rows of a tenant on the day of `now`.
abbrev pub is_today : Text → ℕ → TurnCost → Bool
is_today tenant_id now r = (r.tenant_id =? tenant_id) && day r.created_at == day now

unfoldable pub total_for_tenant_today : Text → ℕ → List TurnCost → ℕ
total_for_tenant_today tenant_id now = sum_if (is_today tenant_id now) (λ r. r.cost_usd)

unfoldable pub tokens_for_tenant_today : Text → ℕ → List TurnCost → ℕ
tokens_for_tenant_today tenant_id now =
    sum_if (is_today tenant_id now) (λ r. r.input_tokens + r.output_tokens)

-- `enforce_daily_budget`: `none` where it returns, the tokens used where it raises. A budget of
-- zero is no budget.
unfoldable pub enforce_daily_budget : Text → ℕ → Option ℕ → List TurnCost → Option ℕ
enforce_daily_budget tenant_id now none rows = none
enforce_daily_budget tenant_id now (some budget) rows =
    let used = tokens_for_tenant_today tenant_id now rows in
    if budget == 0 then none else if leb budget used then some used else none
