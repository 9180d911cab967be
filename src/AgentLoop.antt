-- ===== src/AgentLoop.antt =====
-- One agent turn: `run_agent_turn` of
-- services/agent_runtime/src/voyagent_agent_runtime/_agent_loop.py, with the retries of a broken
-- stream and the dispatch of tool calls. The client is a parameter that acts on the world; delays
-- are counted in milliseconds; blocks carry an id and a name, as the SDK gives them.
mod Types
pub mod Retry
pub mod Transcript
pub mod Pause
mod Tests
pub use Types.*
use voyagent.Prelude.{
  ℕ, zero, suc, ◌+◌, Bool, true, false, ◌&&◌, ◌||◌, Option, none, some, List, [], ◌∷◌, ◌++◌, map,
  if◌then◌else◌, length,
}
use voyagent.Prelude.Text.{Text, codes, contains, is_empty, eq_text, text_key}
use voyagent.Prelude.Dict.{Dict}
use voyagent.Tools.{
  Tool, Context, State, Externals, Outcome, Kind, success, error, approval_needed,
  permission_denied, invoke_tool,
}

abbrev pub max_tool_loops : ℕ
max_tool_loops = 8

abbrev pub rate_limit_backoff : List ℕ
rate_limit_backoff = 1000 ∷ 2000 ∷ []

abbrev pub connection_backoff : List ℕ
connection_backoff = 1000 ∷ []

-- `_is_rate_limit_error`, `_is_connection_error`, `_is_permanent_anthropic_error`: by class name,
-- which also covers the `isinstance` tests against the SDK's classes.
abbrev pub is_rate_limit_error : Exc → Bool
is_rate_limit_error exc = contains (codes "RateLimitError") exc.mro

abbrev pub is_connection_error : Exc → Bool
is_connection_error exc = contains (codes "APIConnectionError") exc.mro

abbrev pub is_permanent_anthropic_error : Exc → Bool
is_permanent_anthropic_error exc =
    contains (codes "AuthenticationError") exc.mro || contains (codes "BadRequestError") exc.mro

-- The delay before the next attempt, with what is left of the two schedules; `none` gives up.
unfoldable pub next_wait : Exc → List ℕ → List ℕ → Option (ℕ × List ℕ × List ℕ)
next_wait exc rate conn =
    let on_connection : Option (ℕ × List ℕ × List ℕ) =
      if is_connection_error exc
      then (elim conn [ [] ↦ none | delay ∷ rest ↦ some (delay, rate, rest) ])
      else none in
    if is_permanent_anthropic_error exc
    then none
    else if is_rate_limit_error exc
    then (elim rate [
      | [] ↦ on_connection
      | delay ∷ rest ↦
          some (elim exc.retry_after [ none ↦ delay | some hinted ↦ hinted ], rest, conn)
    ])
    else on_connection

-- How the attempts end: with the deltas of the last one and its final message, or broken.
pub data Streamed (J : Type 0) : Type 0 where
  streamed : List Text → Option (FinalMessage J) → Streamed J
  broken : Exc → Streamed J

-- `buffered_deltas`: texts that are empty are dropped.
unfoldable pub deltas_of : {J : Type 0} → List (StreamEvent J) → List Text
deltas_of [] = []
deltas_of (text_event t ∷ es) = let rest = deltas_of es in if is_empty t then rest else t ∷ rest
deltas_of (message_stop m ∷ es) = deltas_of es
deltas_of (other_event ∷ es) = deltas_of es

-- The last message that a `message_stop` carries.
unfoldable pub final_of :
    {J : Type 0} → Option (FinalMessage J) → List (StreamEvent J) → Option (FinalMessage J)
final_of found [] = found
final_of found (text_event t ∷ es) = final_of found es
final_of found (message_stop m ∷ es) = final_of (some m) es
final_of found (other_event ∷ es) = final_of found es

-- `yield e`, before the rest of the generator.
abbrev pub emit : {W J : Type 0} → Event J → Loop W J → Run W J → Run W J
emit e l (steps, end) = ((e, l) ∷ steps, end)

abbrev pub emit_all : {W J : Type 0} → List (Event J) → Loop W J → Run W J → Run W J
emit_all [] l r = r
emit_all (e ∷ es) l r = emit e l (emit_all es l r)

abbrev pub append_message : {W J : Type 0} → Message J → Loop W J → Loop W J
append_message m l = record l { messages = l.messages ++ m ∷ [] }

abbrev pub with_world : {W J : Type 0} → W → Loop W J → Loop W J
with_world w l = record l { state = record (l.state) { world = w } }

module _ {W J : Type 0} (client : Client W J) where
  -- The `while True` around the stream. `none` would mean that the fuel ran out: see Retry.
  unfoldable pub stream_attempts :
      ℕ → List ℕ → List ℕ → List (Message J) → W → Option (W × Streamed J)
  stream_attempts zero rate conn messages w = none
  stream_attempts (suc fuel) rate conn messages w =
      let (w', r) = client.stream messages w in
      elim r.failure [
        | none ↦ some (w', streamed (deltas_of r.yielded) (final_of none r.yielded))
        | some exc ↦ elim (next_wait exc rate conn) [
          | none ↦ some (w', broken exc)
          | some (delay, rate', conn') ↦
              stream_attempts fuel rate' conn' messages (client.sleep delay w')
        ]
      ]

  -- The error message of a stream that stays broken.
  unfoldable pub stream_error : Exc → LoopError
  stream_error exc =
      if is_rate_limit_error exc
      then model_rate_limited exc.rendered
      else stream_failed exc.rendered

  -- `outcome.output or {"error": …}`: an empty output counts as none.
  unfoldable pub payload_of : Outcome J → Payload J
  payload_of out = elim out.output [
    | none ↦ error_of out.error_message
    | some j ↦ if client.is_falsy j then error_of out.error_message else output_of j
  ]

  -- `outcome.message or outcome.error_message`.
  abbrev denial : Outcome J → Payload J
  denial out = denial_of (elim out.message [ none ↦ out.error_message | some m ↦ some m ])

  -- What a call shows: its event, its tool result, and whether it waits for an approval.
  unfoldable pub respond : Kind → Text → Text → Outcome J → Event J × ToolResult J × Bool
  respond approval_needed id name out = (
    approval_request name id out.approval_id out.approval_summary,
    record { tool_use_id = id; content = approval_pending out.approval_id; is_error = false },
    true,
  )
  respond permission_denied id name out = (
    tool_result_event name (denial out) id,
    record { tool_use_id = id; content = payload (denial out); is_error = true },
    false,
  )
  respond success id name out = (
    tool_result_event name (payload_of out) id,
    record { tool_use_id = id; content = payload (payload_of out); is_error = false },
    false,
  )
  respond error id name out = (
    tool_result_event name (payload_of out) id,
    record { tool_use_id = id; content = payload (payload_of out); is_error = true },
    false,
  )

  module _ (env : Externals W J) (registry : Dict Text (Tool W J))
      (on_tool_use : Text → J → Option (Override J)) (ctx : Context) where
    -- The end of a round: the results go onto the transcript, and the turn pauses or goes on.
    unfoldable pub end_round :
        (Loop W J → Run W J) → List (ToolResult J) → Bool → Loop W J → Run W J
    end_round again results pending l =
        let l' = if is_empty results then l else append_message (tool_results results) l in
        if pending then ([], l') else again l'

    -- A call that the caller intercepts: its events, a short result, and the end of the turn.
    unfoldable pub intercept : Override J → Text → List (ToolResult J) → Loop W J → Run W J
    intercept o id results l =
        let l' = record l { handoff = elim o.target [ none ↦ l.handoff | some t ↦ some t ] } in
        let ack : ToolResult J = record { tool_use_id = id; content = handled; is_error = false } in
        emit_all o.shown l' ([], append_message (tool_results (results ++ ack ∷ [])) l')

    -- The blocks of a round in order, with the results so far and whether an approval is pending.
    unfoldable pub dispatch :
        (Loop W J → Run W J) → List (Block J) → List (ToolResult J) → Bool → Loop W J → Run W J
    dispatch again [] results pending l = end_round again results pending l
    dispatch again (text_block t ∷ bs) results pending l = dispatch again bs results pending l
    dispatch again (other_block t ∷ bs) results pending l = dispatch again bs results pending l
    dispatch again (tool_use id name input ∷ bs) results pending l =
        emit (tool_use_event name input id) l (elim (on_tool_use name input) [
          | some o ↦ intercept o id results l
          | none ↦
              let (s', out) = invoke_tool env registry name input ctx l.state in
              let l' : Loop W J = record l { state = s' } in
              let (e, r, waits) = respond out.kind id name out in
              emit e l' (dispatch again bs (results ++ r ∷ []) (pending || waits) l')
        ])

    -- What follows a stream that went through.
    unfoldable pub after_stream :
        (Loop W J → Run W J) → Option (FinalMessage J) → Loop W J → Run W J
    after_stream again none l = ([], l)
    after_stream again (some m) l =
        let l' = append_message (assistant m.content) l in
        if eq_text m.stop_reason (codes "tool_use")
        then dispatch again m.content [] false l'
        else ([], l')

    -- One round: the stream, its deltas, and the tool calls.
    unfoldable pub round : (Loop W J → Run W J) → Option (W × Streamed J) → Loop W J → Run W J
    round again none l = ([], l)
    round again (some (w, broken exc)) l =
        emit (error_event (stream_error exc)) (with_world w l) ([], with_world w l)
    round again (some (w, streamed deltas found)) l =
        let l' = with_world w l in
        emit_all (map text_delta deltas) l' (
          after_stream again (elim found [ none ↦ client.last_final_message w | some m ↦ some m ])
            l')

    -- `for loop_idx in range(MAX_TOOL_LOOPS)`, with the rounds that are left.
    unfoldable pub run_rounds : ℕ → Loop W J → Run W J
    run_rounds zero l = ([], l)
    run_rounds (suc n) l =
        round (run_rounds n)
          (stream_attempts 4 rate_limit_backoff connection_backoff l.messages l.state.world) l

    -- `run_agent_turn`.
    unfoldable pub run_agent_turn : Loop W J → Run W J
    unfolding run_rounds
    run_agent_turn l = run_rounds max_tool_loops l
