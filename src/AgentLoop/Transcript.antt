-- ===== src/AgentLoop/Transcript.antt =====
-- What a turn adds to the transcript: `run_agent_turn` of _agent_loop.py, where no caller
-- intercepts tool calls, as the domain agents run it.
use mathlib.Core.List.{append-nil, append_assoc, map-append}
use voyagent.Prelude.{
  ℕ, zero, suc, ◌≡◌, refl, sym, ap, ◌∙◌, Bool, false, ◌||◌, Option, none, some, List, [], ◌∷◌, ◌++◌,
  map, if_elim, Option-elim,
}
use voyagent.Prelude.Text.{Text, codes, eq_text, text_key}
use voyagent.Prelude.Dict.{Dict}
use voyagent.Tools.{
  Tool, Context, Externals, Outcome, Kind, success, error, approval_needed, permission_denied,
  invoke_tool,
}
use voyagent.AgentLoop.{
  Client, Block, text_block, tool_use, other_block, FinalMessage, Message, assistant, tool_results,
  ToolResult, Override, Loop, Run, Event, Streamed, streamed, broken, emit, emit_all, respond,
  end_round, dispatch, after_stream, round, run_rounds, run_agent_turn, max_tool_loops,
  append_message, tool_use_event, stream_attempts, with_world, text_delta, rate_limit_backoff,
  connection_backoff,
}

-- The ids of the tool calls in a message.
abbrev pub tool_ids : {J : Type 0} → List (Block J) → List Text
tool_ids [] = []
tool_ids (tool_use id _ _ ∷ bs) = id ∷ tool_ids bs
tool_ids (text_block _ ∷ bs) = tool_ids bs
tool_ids (other_block _ ∷ bs) = tool_ids bs

abbrev pub result_ids : {J : Type 0} → List (ToolResult J) → List Text
result_ids = map (λ r. r.tool_use_id)

-- A final message that the client gives for some transcript, with the stream or after it.
abbrev pub Said : {W J : Type 0} → Client W J → FinalMessage J → Type 0
Said {W} {J} client m =
    (messages : List (Message J)) × (w : W) × (w' : W) × (deltas : List Text) × (found : Option
      (FinalMessage J))
    × (stream_attempts client 4 rate_limit_backoff connection_backoff messages w
        ≡ some (w', streamed deltas found))
    × ((elim found [ none ↦ client.last_final_message w' | some x ↦ some x ]) ≡ some m)

-- What at most `n` rounds append.
pub data Grown {W J : Type 0} (client : Client W J) : ℕ → List (Message J) → Type 0 where
  stays : {n : ℕ} → Grown client n []
  ends :
      {n : ℕ} (m : FinalMessage J)
      → Said client m
      → eq_text m.stop_reason (codes "tool_use") ≡ false
      → Grown client (suc n) (assistant m.content ∷ [])
  idle :
      {n : ℕ} {tail : List (Message J)} (bs : List (Block J))
      → tool_ids bs ≡ []
      → Grown client n tail
      → Grown client (suc n) (assistant bs ∷ tail)
  answered :
      {n : ℕ} {tail : List (Message J)} (bs : List (Block J)) (rs : List (ToolResult J))
      → result_ids rs ≡ tool_ids bs
      → Grown client n tail
      → Grown client (suc n) (assistant bs ∷ tool_results rs ∷ tail)

emit_all_end :
    {W J : Type 0} (es : List (Event J)) (l : Loop W J) (r : Run W J) → (emit_all es l r).1 ≡ r.1
emit_all_end [] l r = refl
emit_all_end (e ∷ es) l r = emit_all_end es l r

module _ {W J : Type 0} (client : Client W J) (env : Externals W J)
    (registry : Dict Text (Tool W J)) (on_tool_use : Text → J → Option (Override J))
    (ctx : Context) where
  respond_id :
      (k : Kind) (id name : Text) (out : Outcome J)
      → (respond client k id name out).1.tool_use_id ≡ id
  unfolding respond
  respond_id success id name out = refl
  respond_id error id name out = refl
  respond_id approval_needed id name out = refl
  respond_id permission_denied id name out = refl

  -- The results of a round, if there are any, and what follows them.
  abbrev closing : List (ToolResult J) → List (Message J) → List (Message J)
  closing [] tail = tail
  closing (r ∷ rs) tail = tool_results (r ∷ rs) ∷ tail

  abbrev Adds : (List (Message J) → Type 0) → Loop W J → Run W J → Type 0
  Adds P l r = (tail : List (Message J)) × (r.1.messages ≡ l.messages ++ tail) × P tail

  abbrev Answers : (List (Message J) → Type 0) → List Text → Loop W J → Run W J → Type 0
  Answers P ids l r =
      (rs : List (ToolResult J)) × (tail : List (Message J)) × (result_ids rs ≡ ids)
      × (r.1.messages ≡ l.messages ++ closing rs tail)
      × P tail

  module _ (P : List (Message J) → Type 0) (P[] : P []) (again : Loop W J → Run W J)
      (step : (l : Loop W J) → Adds P l (again l))
      (quiet : (name : Text) (input : J) → on_tool_use name input ≡ none) where
    end_round-Answers :
        (results : List (ToolResult J)) (pending : Bool) (l : Loop W J)
        → Answers P
            (result_ids results)
            l
            (end_round client env registry on_tool_use ctx again results pending l)
    unfolding end_round
    end_round-Answers [] pending l =
        if_elim pending (Answers P [] l)
          (λ paused. ([], [], refl, sym (append-nil l.messages), P[]))
          (λ going. (let (tail, e, p) = step l in ([], tail, refl, e, p)))
    end_round-Answers (r ∷ rs) pending l =
        if_elim pending (Answers P (result_ids (r ∷ rs)) l)
          (λ paused. (r ∷ rs, [], refl, refl, P[]))
          (λ going.
            let (tail, e, p) = step (append_message (tool_results (r ∷ rs)) l) in
            (r ∷ rs, tail, refl, e ∙ append_assoc l.messages (tool_results (r ∷ rs) ∷ []) tail, p))

    dispatch-Answers :
        (bs : List (Block J)) (results : List (ToolResult J)) (pending : Bool) (l : Loop W J)
        → Answers P
            (result_ids results ++ tool_ids bs)
            l
            (dispatch client env registry on_tool_use ctx again bs results pending l)
    unfolding dispatch
    dispatch-Answers [] results pending l =
        rw (append-nil (result_ids results)) (end_round-Answers results pending l)
    dispatch-Answers (text_block t ∷ bs) results pending l = dispatch-Answers bs results pending l
    dispatch-Answers (other_block t ∷ bs) results pending l = dispatch-Answers bs results pending l
    dispatch-Answers (tool_use id name input ∷ bs) results pending l =
        let call = invoke_tool env registry name input ctx l.state in
        let out = call.1 in
        let shown = respond client out.kind id name out in
        let l' : Loop W J = record l { state = call.0 } in
        let (rs, tail, ids, e, p) =
          dispatch-Answers bs (results ++ shown.1 ∷ []) (pending || shown.2) l' in
        let ids' : result_ids rs ≡ result_ids results ++ (id ∷ tool_ids bs) =
          ids
          ∙ ap (λ x. x ++ tool_ids bs) (map-append (λ r. r.tool_use_id) results (shown.1 ∷ []))
          ∙ append_assoc (result_ids results) (shown.1.tool_use_id ∷ []) (tool_ids bs)
          ∙ ap (λ x. result_ids results ++ (x ∷ tool_ids bs)) (respond_id out.kind id name out) in
        Option-elim (on_tool_use name input)
          (λ r.
            Answers P (result_ids results ++ (id ∷ tool_ids bs)) l
              (emit (tool_use_event name input id) l r))
          (λ open_call. (rs, tail, ids', e, p)) (λ o taken. cc (quiet name input))

  module _ (quiet : (name : Text) (input : J) → on_tool_use name input ≡ none) where
    after_stream-Adds :
        (n : ℕ) (again : Loop W J → Run W J)
        → ((l : Loop W J) → Adds (Grown client n) l (again l))
        → (found : Option (FinalMessage J)) (l : Loop W J)
        → ((m : FinalMessage J) → found ≡ some m → Said client m)
        → Adds
            (Grown client (suc n))
            l
            (after_stream client env registry on_tool_use ctx again found l)
    unfolding after_stream
    after_stream-Adds n again step none l said = ([], sym (append-nil l.messages), stays)
    after_stream-Adds n again step (some m) l said =
        let l' = append_message (assistant m.content) l in
        if_elim (eq_text m.stop_reason (codes "tool_use")) (Adds (Grown client (suc n)) l)
          (λ calls.
            answered_round m.content
              (dispatch client env registry on_tool_use ctx again m.content [] false l')
              (dispatch-Answers (Grown client n) stays again step quiet m.content [] false l'))
          (λ stop. (assistant m.content ∷ [], refl, ends m (said m refl) stop))
      where
        answered_round :
            (bs : List (Block J)) (r : Run W J)
            → Answers (Grown client n) (tool_ids bs) (append_message (assistant bs) l) r
            → Adds (Grown client (suc n)) l r
        answered_round bs r ([], tail, ids, e, p) = (
          assistant bs ∷ tail,
          e ∙ append_assoc l.messages (assistant bs ∷ []) tail,
          idle bs (sym ids) p,
        )
        answered_round bs _ (r ∷ rs, tail, ids, e, p) = (
          assistant bs ∷ tool_results (r ∷ rs) ∷ tail,
          e ∙ append_assoc l.messages (assistant bs ∷ []) (tool_results (r ∷ rs) ∷ tail),
          answered bs (r ∷ rs) ids p,
        )

    round-Adds :
        (n : ℕ) (again : Loop W J → Run W J)
        → ((l : Loop W J) → Adds (Grown client n) l (again l))
        → (s : Option (W × Streamed J)) (l : Loop W J)
        → stream_attempts client 4 rate_limit_backoff connection_backoff l.messages l.state.world
          ≡ s
        → Adds (Grown client (suc n)) l (round client env registry on_tool_use ctx again s l)
    unfolding round
    round-Adds n again step none l h = ([], sym (append-nil l.messages), stays)
    round-Adds n again step (some (w, broken exc)) l h = ([], sym (append-nil l.messages), stays)
    round-Adds n again step (some (w, streamed deltas found)) l h =
        let final : Option (FinalMessage J) = elim found [
          | none ↦ client.last_final_message w
          | some m ↦ some m
        ] in
        let r = after_stream client env registry on_tool_use ctx again final (with_world w l) in
        let (tail, e, p) =
          after_stream-Adds n again step final (with_world w l)
            (λ m e. (l.messages, l.state.world, w, deltas, found, h, e)) in
        (
          tail,
          ap (λ x. x.messages) (emit_all_end (map text_delta deltas) (with_world w l) r) ∙ e,
          p,
        )

    run_rounds-Adds :
        (n : ℕ) (l : Loop W J)
        → Adds (Grown client n) l (run_rounds client env registry on_tool_use ctx n l)
    unfolding run_rounds
    run_rounds-Adds zero l = ([], sym (append-nil l.messages), stays)
    run_rounds-Adds (suc n) l =
        round-Adds n (run_rounds client env registry on_tool_use ctx n) (run_rounds-Adds n)
          (stream_attempts client 4 rate_limit_backoff connection_backoff l.messages l.state.world)
          l refl

    -- A turn that is consumed to its end, and whose caller intercepts no call, only appends to the
    -- transcript, at most eight assistant messages. Each of them but the last of the turn is
    -- followed by the results of exactly its tool calls, in their order, in one message (by none,
    -- if it has no calls); the last may also stand alone, but only where it is a final message that
    -- the client gave with a stop reason other than "tool_use".
    pub run_agent_turn-Grown :
        (l : Loop W J)
        → (tail : List (Message J)) × ((run_agent_turn client env registry on_tool_use ctx
              l).1.messages
            ≡ l.messages ++ tail)
          × Grown client max_tool_loops tail
    unfolding run_agent_turn
    run_agent_turn-Grown l = run_rounds-Adds max_tool_loops l
