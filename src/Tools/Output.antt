-- ===== src/Tools/Output.antt =====
-- The loop around the handler: `invoke_tool` of tools.py, step 4.
use voyagent.Prelude.{
  ℕ, zero, suc, ◌+◌, ◌≡◌, refl, ap, ◌∙◌, ◌⊎◌, inl, inr, Option, none, some, if_elim, Option-elim,
}
use voyagent.Prelude.Text.{Text}
use voyagent.Tools.{
  Tool, ToolSpec, Context, State, Externals, Outcome, AuditEvent, success, error, handler_raised,
  output_invalid, Attempt, completed, crashed, mismatched, HandlerResult, returned, raised, judge,
  open_audit, attempt_once, run_attempts, retries, close_audit, settle, execute, write_audit,
}

module _ {W J : Type 0} (env : Externals W J) where
  -- The output is one that the schema accepts, where the tool declares one.
  abbrev pub Conforms : ToolSpec J → J → Type 0
  Conforms spec output =
      (schema : J) → spec.output_schema ≡ some schema → env.output_error schema output ≡ none

  -- The output is one that the tool's schema rejects with this message.
  abbrev pub Rejects : ToolSpec J → J → Text → Type 0
  Rejects spec output message =
      (schema : J) × (spec.output_schema ≡ some schema)
      × (env.output_error schema output ≡ some message)

  -- The outcome that a handler's result leads to when it is not tried again.
  pub data Ends (name : Text) (spec : ToolSpec J) : HandlerResult J → Outcome J → Type 0 where
    accepted :
        (output : J) (r : Outcome J)
        → Conforms spec output
        → r.kind ≡ success
        → r.output ≡ some output
        → Ends name spec (returned output) r
    failed_with :
        (message : Text) (r : Outcome J)
        → r.kind ≡ error
        → r.error_message ≡ some (handler_raised message)
        → Ends name spec (raised message) r
    turned_down :
        (output : J) (message : Text) (r : Outcome J)
        → Rejects spec output message
        → r.kind ≡ error
        → r.error_message ≡ some (output_invalid name (retries spec + 1) message)
        → Ends name spec (returned output) r

  -- What one run of the handler comes to.
  data Judged (spec : ToolSpec J) : HandlerResult J → Attempt J → Type 0 where
    fits : (output : J) → Conforms spec output → Judged spec (returned output) (completed output)
    fails : (message : Text) → Judged spec (raised message) (crashed message)
    clashes :
        (output : J) (message : Text)
        → Rejects spec output message
        → Judged spec (returned output) (mismatched message)

  judge-Judged :
      (spec : ToolSpec J) (result : HandlerResult J) → Judged spec result (judge env spec result)
  unfolding judge
  judge-Judged spec (raised message) = fails message
  judge-Judged spec (returned output) =
      Option-elim spec.output_schema (Judged spec (returned output))
        (λ undeclared. fits output (λ schema e. cc))
        (λ schema e.
          Option-elim (env.output_error schema output) (Judged spec (returned output))
            (λ none_wrong.
              fits output
                (λ other e'. (let same : schema ≡ other = cc (e, e') in rw (← same) none_wrong)))
            (λ message bad. clashes output message (schema, e, bad)))

  -- One run is all, unless its output is rejected: then a second run, told the message, is the last.
  abbrev Attempted : Tool W J → J → Context → State W J → State W J × Attempt J → Type 0
  Attempted t input ctx s r =
      let (w, result) = t.handler input ctx s.last_output_error s.world in
      ((r.0.world ≡ w)
        × (r.0.last_output_error ≡ s.last_output_error)
        × ((output : J) (message : Text)
            → result ≡ returned output
            → ¬ Rejects t.spec output message)
        × Judged t.spec result r.1)
      ⊎ ((output : J) × (message : Text) × (result ≡ returned output)
          × Rejects t.spec output message
          × (let (w', result') = t.handler input ctx (some message) w in
              (r.0.world ≡ w')
              × (r.0.last_output_error ≡ some message)
              × Judged t.spec result' r.1))

  -- The state after one run of the handler.
  abbrev ran : Tool W J → J → Context → State W J → State W J
  ran t input ctx s = record s { world = (t.handler input ctx s.last_output_error s.world).0 }

  ends_completed :
      (t : Tool W J) (input : J) (ctx : Context) (n : ℕ) (s : State W J) (output : J)
      → judge env t.spec (t.handler input ctx s.last_output_error s.world).1 ≡ completed output
      → run_attempts env t input ctx n s ≡ (ran t input ctx s, completed output)
  unfolding run_attempts attempt_once
  ends_completed t input ctx zero s output v = rw v refl
  ends_completed t input ctx (suc n) s output v = rw (run_attempts, v) refl

  ends_crashed :
      (t : Tool W J) (input : J) (ctx : Context) (n : ℕ) (s : State W J) (message : Text)
      → judge env t.spec (t.handler input ctx s.last_output_error s.world).1 ≡ crashed message
      → run_attempts env t input ctx n s ≡ (ran t input ctx s, crashed message)
  unfolding run_attempts attempt_once
  ends_crashed t input ctx zero s message v = rw v refl
  ends_crashed t input ctx (suc n) s message v = rw (run_attempts, v) refl

  goes_on :
      (t : Tool W J) (input : J) (ctx : Context) (s : State W J) (message : Text)
      → judge env t.spec (t.handler input ctx s.last_output_error s.world).1 ≡ mismatched message
      → run_attempts env t input ctx 1 s
        ≡ attempt_once env t input ctx
            (record (ran t input ctx s) { last_output_error = some message })
  unfolding run_attempts attempt_once
  goes_on t input ctx s message v = rw (run_attempts, v) refl

  after_first :
      (t : Tool W J) (input : J) (ctx : Context) (s : State W J) {result : HandlerResult J}
      {a : Attempt J}
      → (t.handler input ctx s.last_output_error s.world).1 ≡ result
      → Judged t.spec result a
      → judge env t.spec (t.handler input ctx s.last_output_error s.world).1 ≡ a
      → Attempted t input ctx s (run_attempts env t input ctx (retries t.spec) s)
  unfolding attempt_once
  after_first t input ctx s e (fits output c) v =
      rw (ends_completed t input ctx (retries t.spec) s output v) (
        inl (
          refl,
          refl,
          λ other message same (schema, declared, bad).
              (let h : output ≡ other = cc (e, same) in let k = c schema declared in cc),
          rw e (fits output c),
        ))
  after_first t input ctx s e (fails message) v =
      rw (ends_crashed t input ctx (retries t.spec) s message v)
        (inl (refl, refl, λ other m same bad. cc (e, same), rw e (fails message)))
  after_first t input ctx s e (clashes output message (schema, declared, bad)) v =
      let told : State W J = record (ran t input ctx s) { last_output_error = some message } in
      let one : retries t.spec ≡ 1 =
        ap (λ (o : Option J). elim o as (λ _. ℕ) [ none ↦ 0 | some _ ↦ 1 ]) declared in
      rw (ap (λ n. run_attempts env t input ctx n s) one ∙ goes_on t input ctx s message v) (
        inr (
          output,
          message,
          e,
          (schema, declared, bad),
          (
            refl,
            refl,
            judge-Judged t.spec
                (t.handler input ctx (some message)
                  (t.handler input ctx s.last_output_error s.world).0).1,
          ),
        ))

  settle-Ends :
      (name : Text) (spec : ToolSpec J) (audit : Option (AuditEvent J)) (s : State W J)
      {result : HandlerResult J} {a : Attempt J}
      → Judged spec result a
      → Ends name spec result (settle env name spec audit s a).1
  unfolding settle
  settle-Ends name spec audit s (fits output c) = accepted output _ c refl refl
  settle-Ends name spec audit s (fails message) = failed_with message _ refl refl
  settle-Ends name spec audit s (clashes output message bad) =
      turned_down output message _ bad refl refl

  -- Closing the row leaves the world and the hint.
  abbrev Same : State W J → State W J → Type 0
  Same s s' = (s'.world ≡ s.world) × (s'.last_output_error ≡ s.last_output_error)

  settle-Same :
      (name : Text) (spec : ToolSpec J) (audit : Option (AuditEvent J)) (s : State W J)
      (a : Attempt J)
      → Same s (settle env name spec audit s a).0
  unfolding settle close_audit
  settle-Same name spec none s (completed output) = (refl, refl)
  settle-Same name spec none s (crashed message) = (refl, refl)
  settle-Same name spec none s (mismatched message) = (refl, refl)
  settle-Same name spec (some e) s (completed output) = (refl, refl)
  settle-Same name spec (some e) s (crashed message) = (refl, refl)
  settle-Same name spec (some e) s (mismatched message) = (refl, refl)

  -- What a call that is executed did: see `execute_attempts`.
  abbrev pub Executed : Text → Tool W J → J → Context → State W J → State W J × Outcome J → Type 0
  Executed name t input ctx s r =
      let (w, result) = t.handler input ctx s.last_output_error s.world in
      ((r.0.world ≡ w)
        × (r.0.last_output_error ≡ s.last_output_error)
        × ((output : J) (message : Text)
            → result ≡ returned output
            → ¬ Rejects t.spec output message)
        × Ends name t.spec result r.1)
      ⊎ ((output : J) × (message : Text) × (result ≡ returned output)
          × Rejects t.spec output message
          × (let (w', result') = t.handler input ctx (some message) w in
              (r.0.world ≡ w')
              × (r.0.last_output_error ≡ some message)
              × Ends name t.spec result' r.1))

  settle-Executed :
      (name : Text) (t : Tool W J) (input : J) (ctx : Context) (audit : Option (AuditEvent J))
      (s : State W J) (r : State W J × Attempt J)
      → Attempted t input ctx s r
      → Executed name t input ctx s (settle env name t.spec audit r.0 r.1)
  settle-Executed name t input ctx audit s r (inl (w, h, kept, j)) =
      let (w', h') = settle-Same name t.spec audit r.0 r.1 in
      inl (w' ∙ w, h' ∙ h, kept, settle-Ends name t.spec audit r.0 j)
  settle-Executed name t input ctx audit s r (inr (output, message, e, bad, (w, h, j))) =
      let (w', h') = settle-Same name t.spec audit r.0 r.1 in
      inr (output, message, e, bad, (w' ∙ w, h' ∙ h, settle-Ends name t.spec audit r.0 j))

  -- A call that is executed runs its handler with the hint that is there. Unless the tool declares a
  -- schema that rejects the output, that run is the only one, and the outcome is a success with the
  -- output or an error with the exception. If the schema rejects it, the handler runs exactly once
  -- more, with the message of that rejection as its hint, and the outcome is that of the second run:
  -- a success only with an output that the schema accepts, else an error with the last message.
  pub execute_attempts :
      (name : Text) (t : Tool W J) (input : J) (ctx : Context) (s : State W J)
      → Executed name t input ctx s (execute env name t input ctx s)
  unfolding execute
  execute_attempts name t input ctx s =
      let audit = open_audit name t.spec (env.jsonable input) ctx (env.reading s.world) in
      let left = retries t.spec in
      let judged = judge-Judged t.spec (t.handler input ctx s.last_output_error s.world).1 in
      if_elim t.spec.side_effect (Executed name t input ctx s)
        (λ acts.
          settle-Executed name t input ctx (some audit) s
            (run_attempts env t input ctx left (write_audit audit s))
            (after_first t input ctx (write_audit audit s) refl judged refl))
        (λ pure.
          settle-Executed name t input ctx none s (run_attempts env t input ctx left s)
            (after_first t input ctx s refl judged refl))
