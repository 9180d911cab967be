-- ===== src/AgentLoop/Pause.antt =====
-- What holds at each event that a turn of _agent_loop.py shows: `run_agent_turn` never emits the
-- final event, and where it shows an approval request its transcript ends with the unanswered call.
use mathlib.Core.List.{append-nil, append_assoc}
use voyagent.Prelude.{
  ℕ, zero, suc, ◌≡◌, refl, sym, ap, ◌∙◌, Bool, false, ◌||◌, Option, none, some, List, [], ◌∷◌, ◌++◌,
  map, if_elim, Option-elim, All,
}
use voyagent.Prelude.Text.{Text, codes, eq_text, text_key}
use voyagent.Prelude.Dict.{Dict}
use voyagent.Tools.{
  Tool, Context, Externals, Outcome, Kind, success, error, approval_needed, permission_denied,
  invoke_tool,
}
use voyagent.AgentLoop.{
  Client, Block, text_block, tool_use, other_block, FinalMessage, Message, assistant, tool_results,
  ToolResult, Override, Loop, Run, Event, text_delta, tool_use_event, tool_result_event,
  approval_request, error_event, final_event, Streamed, streamed, broken, emit, emit_all, respond,
  end_round, intercept, dispatch, after_stream, round, run_rounds, run_agent_turn, max_tool_loops,
  append_message, stream_attempts, with_world, rate_limit_backoff, connection_backoff,
}
use voyagent.AgentLoop.Transcript.{tool_ids}

-- An event that any intercepted call may show.
abbrev pub IsPlain : {J : Type 0} → Event J → Type 0
IsPlain (text_delta _) = Unit
IsPlain (tool_use_event _ _ _) = Unit
IsPlain (tool_result_event _ _ _) = Unit
IsPlain (approval_request _ _ _ _) = ⊥
IsPlain (error_event _) = Unit
IsPlain final_event = ⊥

-- A transcript that grew from `base` and ends with an assistant message that calls `id`.
abbrev pub IsOpenAt : {J : Type 0} → List (Message J) → Text → List (Message J) → Type 0
IsOpenAt {J} base id messages =
    (mid : List (Message J)) × (bs : List (Block J)) × (before : List Text) × (after : List Text)
    × (messages ≡ base ++ (mid ++ assistant bs ∷ []))
    × (tool_ids bs ≡ before ++ id ∷ after)

-- What holds of an event and the transcript when it is shown.
abbrev pub Shows : {J : Type 0} → List (Message J) → Event J → List (Message J) → Type 0
Shows base (approval_request name id _ _) messages = IsOpenAt base id messages
Shows base final_event messages = ⊥
Shows base (text_delta _) messages = Unit
Shows base (tool_use_event _ _ _) messages = Unit
Shows base (tool_result_event _ _ _) messages = Unit
Shows base (error_event _) messages = Unit

abbrev pub Steps : {W J : Type 0} → List (Message J) → Run W J → Type 0
Steps base r = All (λ s. Shows base (s.0) (s.1.messages)) r.0

plain-Shows :
    {J : Type 0} (base : List (Message J)) (e : Event J) (messages : List (Message J))
    → IsPlain e
    → Shows base e messages
plain-Shows base (text_delta _) messages p = tt
plain-Shows base (tool_use_event _ _ _) messages p = tt
plain-Shows base (tool_result_event _ _ _) messages p = tt
plain-Shows base (error_event _) messages p = tt
plain-Shows base (approval_request _ _ _ _) messages p = elim p [ ]
plain-Shows base final_event messages p = elim p [ ]

emit_all-Steps :
    {W J : Type 0} (base : List (Message J)) (es : List (Event J)) (l : Loop W J) (r : Run W J)
    → All IsPlain es
    → Steps base r
    → Steps base (emit_all es l r)
emit_all-Steps base [] l r p q = q
emit_all-Steps base (e ∷ es) l r (p, ps) q =
    (plain-Shows base e l.messages p, emit_all-Steps base es l r ps q)

deltas-IsPlain : (J : Type 0) (ts : List Text) → All (IsPlain {J = J}) (map text_delta ts)
deltas-IsPlain J [] = tt
deltas-IsPlain J (t ∷ ts) = (tt, deltas-IsPlain J ts)

module _ {W J : Type 0} (client : Client W J) (env : Externals W J)
    (registry : Dict Text (Tool W J)) (on_tool_use : Text → J → Option (Override J)) (ctx : Context)
    (polite : (name : Text) (input : J) (o : Override J)
      → on_tool_use name input ≡ some o
      → All IsPlain o.shown)
    (base : List (Message J)) where
  -- A round that starts at a transcript beyond `base` shows its events as claimed.
  abbrev Goes : (Loop W J → Run W J) → Type 0
  Goes again =
      (l : Loop W J) (mid : List (Message J)) → l.messages ≡ base ++ mid → Steps base (again l)

  respond-Shows :
      (k : Kind) (id name : Text) (out : Outcome J) (messages : List (Message J))
      → IsOpenAt base id messages
      → Shows base (respond client k id name out).0 messages
  unfolding respond
  respond-Shows success id name out messages p = tt
  respond-Shows error id name out messages p = tt
  respond-Shows approval_needed id name out messages p = p
  respond-Shows permission_denied id name out messages p = tt

  end_round-Steps :
      (again : Loop W J → Run W J)
      → Goes again
      → (results : List (ToolResult J)) (pending : Bool) (l : Loop W J) (mid : List (Message J))
      → l.messages ≡ base ++ mid
      → Steps base (end_round client env registry on_tool_use ctx again results pending l)
  unfolding end_round
  end_round-Steps again step [] pending l mid e =
      if_elim pending (Steps base) (λ paused. tt) (λ going. step l mid e)
  end_round-Steps again step (r ∷ rs) pending l mid e =
      if_elim pending (Steps base) (λ paused. tt)
        (λ going.
          step (append_message (tool_results (r ∷ rs)) l) (mid ++ tool_results (r ∷ rs) ∷ []) (
            ap (λ x. x ++ tool_results (r ∷ rs) ∷ []) e
            ∙ append_assoc base mid (tool_results (r ∷ rs) ∷ [])))

  intercept-Steps :
      (o : Override J) (id : Text) (results : List (ToolResult J)) (l : Loop W J)
      → All IsPlain o.shown
      → Steps base (intercept client env registry on_tool_use ctx o id results l)
  unfolding intercept
  intercept-Steps o id results l p = emit_all-Steps base o.shown _ _ p tt

  dispatch-Steps :
      (again : Loop W J → Run W J)
      → Goes again
      → (mid : List (Message J)) (whole : List (Block J)) (before : List Text) (bs : List (Block J))
      → tool_ids whole ≡ before ++ tool_ids bs
      → (results : List (ToolResult J)) (pending : Bool) (l : Loop W J)
      → l.messages ≡ base ++ (mid ++ assistant whole ∷ [])
      → Steps base (dispatch client env registry on_tool_use ctx again bs results pending l)
  unfolding dispatch
  dispatch-Steps again step mid whole before [] ids results pending l e =
      end_round-Steps again step results pending l (mid ++ assistant whole ∷ []) e
  dispatch-Steps again step mid whole before (text_block t ∷ bs) ids results pending l e =
      dispatch-Steps again step mid whole before bs ids results pending l e
  dispatch-Steps again step mid whole before (other_block t ∷ bs) ids results pending l e =
      dispatch-Steps again step mid whole before bs ids results pending l e
  dispatch-Steps again step mid whole before (tool_use id name input ∷ bs) ids results pending l e =
      let call = invoke_tool env registry name input ctx l.state in
      let shown = respond client call.1.kind id name call.1 in
      let l' : Loop W J = record l { state = call.0 } in
      let r : Run W J =
        dispatch client env registry on_tool_use ctx again bs (results ++ shown.1 ∷ [])
          (pending || shown.2) l' in
      Option-elim (on_tool_use name input) {x = emit shown.0 l' r}
        (λ r. Steps base (emit (tool_use_event name input id) l r))
        (λ open_call. (
          tt,
          (
            respond-Shows call.1.kind id name call.1 l.messages
                (mid, whole, before, tool_ids bs, e, ids),
            dispatch-Steps again step mid whole (before ++ id ∷ []) bs
                (ids ∙ sym (append_assoc before (id ∷ []) (tool_ids bs))) (results ++ shown.1 ∷ [])
                (pending || shown.2) l' e,
          ),
        ))
        (λ o taken. (tt, intercept-Steps o id results l (polite name input o taken)))

  after_stream-Steps :
      (again : Loop W J → Run W J)
      → Goes again
      → (found : Option (FinalMessage J)) (l : Loop W J) (mid : List (Message J))
      → l.messages ≡ base ++ mid
      → Steps base (after_stream client env registry on_tool_use ctx again found l)
  unfolding after_stream
  after_stream-Steps again step none l mid e = tt
  after_stream-Steps again step (some m) l mid e =
      let l' = append_message (assistant m.content) l in
      if_elim (eq_text m.stop_reason (codes "tool_use")) (Steps base)
        (λ calls. dispatch-Steps again step mid m.content [] m.content refl [] false l' (
          ap (λ x. x ++ assistant m.content ∷ []) e
          ∙ append_assoc base mid (assistant m.content ∷ [])))
        (λ stop. tt)

  round-Steps :
      (again : Loop W J → Run W J)
      → Goes again
      → (s : Option (W × Streamed J)) (l : Loop W J) (mid : List (Message J))
      → l.messages ≡ base ++ mid
      → Steps base (round client env registry on_tool_use ctx again s l)
  unfolding round
  round-Steps again step none l mid e = tt
  round-Steps again step (some (w, broken exc)) l mid e = (tt, tt)
  round-Steps again step (some (w, streamed deltas found)) l mid e =
      let final : Option (FinalMessage J) = elim found [
        | none ↦ client.last_final_message w
        | some m ↦ some m
      ] in
      emit_all-Steps base (map text_delta deltas) (with_world w l)
        (after_stream client env registry on_tool_use ctx again final (with_world w l))
        (deltas-IsPlain J deltas) (after_stream-Steps again step final (with_world w l) mid e)

  run_rounds_steps : (n : ℕ) → Goes (run_rounds client env registry on_tool_use ctx n)
  unfolding run_rounds
  run_rounds_steps zero l mid e = tt
  run_rounds_steps (suc n) l mid e =
      round-Steps (run_rounds client env registry on_tool_use ctx n) (run_rounds_steps n)
        (stream_attempts client 4 rate_limit_backoff connection_backoff l.messages l.state.world) l
        mid e

-- At every event of a turn: it is not the final event, and at an approval request the transcript
-- ends with an assistant message that holds the call, with no result for it. The caller's own
-- events must be neither.
pub run_agent_turn-Steps :
    {W J : Type 0} (client : Client W J) (env : Externals W J) (registry : Dict Text (Tool W J))
    (on_tool_use : Text → J → Option (Override J)) (ctx : Context)
    → ((name : Text) (input : J) (o : Override J)
        → on_tool_use name input ≡ some o
        → All IsPlain o.shown)
    → (l : Loop W J) → Steps l.messages (run_agent_turn client env registry on_tool_use ctx l)
unfolding run_agent_turn
run_agent_turn-Steps client env registry on_tool_use ctx polite l =
    run_rounds_steps client env registry on_tool_use ctx polite l.messages max_tool_loops l []
      (sym (append-nil l.messages))
