-- ===== src/AgentLoop/Retry.antt =====
-- The retries of a broken stream: `run_agent_turn` of _agent_loop.py, the `while True`.
use voyagent.Prelude.{ℕ, suc, ◌+◌, ◌≤◌, ◌≡◌, Option, none, some, List, length}
use voyagent.Prelude.Text.{text_key}
use voyagent.AgentLoop.{
  Client, Exc, Message, Streamed, streamed, broken, next_wait, deltas_of, final_of,
}

module _ {W J : Type 0} (client : Client W J) (messages : List (Message J)) where
  -- `n` calls of the client, each but the last broken and followed by the wait that `next_wait`
  -- grants, lead from a world and two schedules to this end.
  pub data Attempts : List ℕ → List ℕ → W → ℕ → W × Streamed J → Type 0 where
    through :
        {rate conn : List ℕ} {w : W}
        → (client.stream messages w).1.failure ≡ none
        → Attempts rate conn w 1 (
          (client.stream messages w).0,
          streamed
              (deltas_of (client.stream messages w).1.yielded)
              (final_of none (client.stream messages w).1.yielded),
        )
    given_up :
        {rate conn : List ℕ} {w : W} {exc : Exc}
        → (client.stream messages w).1.failure ≡ some exc
        → next_wait exc rate conn ≡ none
        → Attempts rate conn w 1 ((client.stream messages w).0, broken exc)
    again :
        {rate conn rate' conn' : List ℕ} {w : W} {exc : Exc} {delay n : ℕ} {out : W × Streamed J}
        → (client.stream messages w).1.failure ≡ some exc
        → next_wait exc rate conn ≡ some (delay, rate', conn')
        → Attempts rate' conn' (client.sleep delay (client.stream messages w).0) n out
        → Attempts rate conn w (suc n) out

  abbrev Ends : List ℕ → List ℕ → W → Option (W × Streamed J) → Type 0
  Ends rate conn w r =
      (out : W × Streamed J) × (n : ℕ) × (r ≡ some out)
      × (n ≤ length rate + length conn + 1)
      × Attempts rate conn w n out
