-- ===== src/RateLimiter.antt =====
-- The per-tenant sliding-window limiter, `InMemoryRateLimiter` of
-- services/agent_runtime/src/voyagent_agent_runtime/rate_limiter.py. Readings of the monotonic
-- clock are counted in microseconds, and the limits are not negative.
-- One `check` holds the asyncio lock throughout, so a history is a list of calls.
pub mod Window
pub mod Quota
pub mod Bound
mod Tests
use voyagent.Prelude.{
  ℕ, ◌+◌, Bool, Option, none, some, List, [], ◌∷◌, ◌++◌, reverse, ltb, leb, if◌then◌else◌, length,
}
use voyagent.Prelude.Text.{Text, text_key}
use voyagent.Prelude.Dict.{Dict, lookup, insert}

abbrev pub minute_window : ℕ
minute_window = 60_000_000

abbrev pub hour_window : ℕ
hour_window = 3_600_000_000

-- The scope that a `RateLimitExceededError` names.
pub data Scope : Type 0 where
  hour minute : Scope

-- `_events`: a deque of timestamps for each tenant, oldest first.
abbrev pub Events : Type 0
Events = Dict Text (List ℕ)

-- `self._events[tenant_id]`, of a `defaultdict(deque)`.
abbrev pub events_of : Text → Events → List ℕ
events_of tenant d = elim (lookup tenant d) [ none ↦ [] | some q ↦ q ]

-- `while q and q[0] < now - _HOUR: q.popleft()`.
pub prune : ℕ → List ℕ → List ℕ
prune now [] = []
prune now (t ∷ q) = let rest = prune now q in if ltb (t + hour_window) now then rest else t ∷ q

-- The loop over `reversed(q)`, which breaks at the first timestamp before the minute window.
pub count_recent : ℕ → List ℕ → ℕ
count_recent now [] = 0
count_recent now (t ∷ q) =
    let rest = count_recent now q in if leb now (t + minute_window) then rest + 1 else 0

-- A check that passes gives `none`, one that raises the scope of the error. The pruned deque stays
-- in the dict either way, since `popleft` works on it in place.
pub check : Events → Text → ℕ → ℕ → ℕ → Events × Option Scope
check d tenant now per_minute per_hour =
    let q = prune now (events_of tenant d) in
    let pruned = insert tenant q d in
    if ltb per_hour (length q + 1)
    then (pruned, some hour)
    else if ltb per_minute (count_recent now (reverse q) + 1)
    then (pruned, some minute)
    else (insert tenant (q ++ now ∷ []) d, none)

-- One call of `check`.
pub record Call : Type 0 where
  pub tenant : Text
  pub now : ℕ
  pub per_minute : ℕ
  pub per_hour : ℕ

-- A history of calls, with the outcome of each.
pub run : Events → List Call → Events × List (Option Scope)
unfolding check
run d [] = (d, [])
run d (c ∷ cs) =
    let (d', outcome) = check d c.tenant c.now c.per_minute c.per_hour in
    let (d'', outcomes) = run d' cs in (d'', outcome ∷ outcomes)
