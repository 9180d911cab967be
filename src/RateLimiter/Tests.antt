-- ===== src/RateLimiter/Tests.antt =====
-- Runs of the limiter on small histories.
use voyagent.Prelude.{◌≡◌, refl, ◌≤◌, some, none, List, [], ◌∷◌, count_if}
use voyagent.RateLimiter.{
  Call, minute, hour, run, check, prune, count_recent, hour_window, minute_window,
}
use voyagent.RateLimiter.Quota.{quota_run, run-quota_run}
use voyagent.RateLimiter.Bound.{accepted, inside, run_bounded}
use voyagent.Prelude.{ℕ, arith}
use voyagent.Prelude.Text.{Text, codes}

abbrev call : Text → ℕ → Call
call tenant now = record { tenant = tenant; now = now; per_minute = 2; per_hour = 3 }

-- Tenant 1 asks four times in a minute, and twice much later; tenant 2 once.
abbrev burst : List Call
burst =
    call (codes "t1") 1_000_000
    ∷ call (codes "t1") 2_000_000
    ∷ call (codes "t1") 3_000_000
    ∷ call (codes "t2") 3_000_000
    ∷ call (codes "t1") 70_000_000
    ∷ call (codes "t1") 80_000_000
    ∷ call (codes "t1") 3_602_500_000
    ∷ []

burst_outcomes : (run [] burst).1 ≡ none ∷ none ∷ some minute ∷ none ∷ none ∷ some hour ∷ none ∷ []
unfolding run check prune count_recent
burst_outcomes = refl

run-quota_run_example : (run [] burst).1 ≡ (quota_run [] burst).1
run-quota_run_example = run-quota_run burst (omega arith)

run_bounded_example :
    (count_if (inside 80_000_000 hour_window) (accepted (codes "t1") burst (run [] burst).1) ≤ 3)
    × (count_if (inside 80_000_000 minute_window) (accepted (codes "t1") burst (run [] burst).1)
        ≤ 2)
run_bounded_example = run_bounded 2 3 (codes "t1") 80_000_000 burst (omega arith) (omega arith)
