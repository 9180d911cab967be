-- ===== src/Tools.antt =====
-- The tool registry and the gate in front of it: `ToolSpec`, `ToolContext`, `register_tool` and
-- `invoke_tool` of services/agent_runtime/src/voyagent_agent_runtime/tools.py.
-- `W` is the world that handlers act on, `J` the type of JSON values; JSON Schema and pydantic
-- validation, the rendering of values, fresh ids and the clock are parameters (`Externals`). The
-- clock is read once where the source reads it twice in a row. The audit sink is
-- `InMemoryAuditSink`, whose `write` appends a deep copy of the event.
mod Types
pub mod Gate
pub mod Trail
pub mod Turns
pub mod Output
mod Tests
pub use Types.*
use voyagent.Prelude.{
  ℕ, zero, suc, ◌+◌, Bool, true, false, not, ◌&&◌, Option, none, some, List, [], ◌∷◌, ◌++◌,
  if◌then◌else◌, is_some,
}
use voyagent.Prelude.Text.{Text, codes, contains, is_empty, text_key}
use voyagent.Prelude.Dict.{Dict, lookup, insert}

-- `register_tool`: `none` where it raises, since the name is taken.
pub register_tool : {W J : Type 0} → Tool W J → Dict Text (Tool W J) → Option (Dict Text (Tool W J))
register_tool t registry =
    if is_some (lookup t.spec.name registry) then none else some (insert t.spec.name t registry)

-- `_approval_id_for`: the f-string `ap-{turn_id}-{tool_name}`.
unfoldable pub approval_id_for : Text → Text → Text
approval_id_for turn_id tool_name = codes "ap-" ++ (turn_id ++ (codes "-" ++ tool_name))

-- The RBAC test of `invoke_tool`.
unfoldable pub role_denied : {J : Type 0} → ToolSpec J → Text → Bool
role_denied spec role =
    spec.approval_required
    && (not (is_empty spec.approval_roles) && not (contains role spec.approval_roles))

-- `spec.side_effect and spec.approval_required`.
unfoldable pub is_gated : {J : Type 0} → ToolSpec J → Bool
is_gated spec = spec.side_effect && spec.approval_required

abbrev pub failure : {J : Type 0} → ErrorText → Option Text → Outcome J
failure message audit_id = record {
  kind = error;
  output = none;
  error_message = some message;
  message = none;
  approval_id = none;
  approval_summary = none;
  audit_id = audit_id;
}

-- The audit row of a call that is about to run.
unfoldable pub open_audit : {J : Type 0} → Text → ToolSpec J → J → Context → Reading → AuditEvent J
open_audit name spec inputs ctx r = record {
  id = r.id;
  tenant_id = ctx.tenant_id;
  actor_id = ctx.actor_id;
  actor_kind = ctx.actor_kind;
  tool = name;
  inputs = inputs;
  outputs = none;
  error = none;
  approval_required = spec.approval_required;
  approved_by = if spec.approval_required then some ctx.actor_id else none;
  approved_at = if spec.approval_required then some r.now else none;
  started_at = r.now;
  completed_at = none;
  status = started;
}

-- The audit row of a refusal, by the role check or by a human.
unfoldable pub rejected_audit :
    {J : Type 0} → Text → J → Context → Reading → Option ErrorText → AuditEvent J
rejected_audit name inputs ctx r reason = record {
  id = r.id;
  tenant_id = ctx.tenant_id;
  actor_id = ctx.actor_id;
  actor_kind = ctx.actor_kind;
  tool = name;
  inputs = inputs;
  outputs = none;
  error = reason;
  approval_required = true;
  approved_by = none;
  approved_at = none;
  started_at = r.now;
  completed_at = some r.now;
  status = rejected;
}

-- `await audit_sink.write(audit)`.
abbrev pub write_audit : {W J : Type 0} → AuditEvent J → State W J → State W J
write_audit e s = record s { audits = s.audits ++ e ∷ [] }

-- `max_validation_attempts - 1`.
abbrev pub retries : {J : Type 0} → ToolSpec J → ℕ
retries spec = elim spec.output_schema [ none ↦ 0 | some _ ↦ 1 ]

abbrev id_of : {J : Type 0} → Option (AuditEvent J) → Option Text
id_of none = none
id_of (some e) = some e.id

module _ {W J : Type 0} (env : Externals W J) where
  -- `_summary_for`: a renderer that is missing or raises falls back on the default sentence.
  pub summary_for : Text → J → Summary
  summary_for name input = elim (lookup name env.approval_summaries) [
    | none ↦ default_summary name (env.brief input)
    | some render ↦ elim (render input) [
      | none ↦ default_summary name (env.brief input)
      | some sentence ↦ specific_summary sentence
    ]
  ]

  -- What becomes of a handler's result: an output is checked if the tool declares a schema.
  unfoldable pub judge : ToolSpec J → HandlerResult J → Attempt J
  judge spec (raised message) = crashed message
  judge spec (returned output) = elim spec.output_schema [
    | none ↦ completed output
    | some schema ↦ elim (env.output_error schema output) [
      | none ↦ completed output
      | some message ↦ mismatched message
    ]
  ]

  -- One run of the handler, and the check of what it returns.
  unfoldable pub attempt_once : Tool W J → J → Context → State W J → State W J × Attempt J
  attempt_once t input ctx s =
      let (w, result) = t.handler input ctx s.last_output_error s.world in
      (record s { world = w }, judge t.spec result)

  -- The `while True` around the handler, with the attempts that are left after this one. A rejected
  -- shape leaves its message in `ctx.extensions` before the next attempt.
  unfoldable pub run_attempts : Tool W J → J → Context → ℕ → State W J → State W J × Attempt J
  run_attempts t input ctx zero s = attempt_once t input ctx s
  run_attempts t input ctx (suc left) s =
      let (s', a) = attempt_once t input ctx s in
      elim a [
        | completed output ↦ (s', completed output)
        | crashed message ↦ (s', crashed message)
        | mismatched message ↦
            run_attempts t input ctx left (record s' { last_output_error = some message })
      ]

  -- The audit row is written once more, closed, if the call has one.
  unfoldable pub close_audit :
      Option (AuditEvent J) → AuditStatus → Option J → Option ErrorText → State W J → State W J
  close_audit none status outputs reason s = s
  close_audit (some e) status outputs reason s =
      write_audit
        (record e {
          outputs = outputs;
          error = reason;
          completed_at = some (env.reading s.world).now;
          status = status;
        })
        s

  -- The outputs that a closed row records.
  abbrev pub audit_outputs : J → J
  audit_outputs output = if env.is_dict output then env.jsonable output else env.empty_dict

  -- What follows the attempts, on each of the three ways in which they end.
  unfoldable pub settle :
      Text → ToolSpec J → Option (AuditEvent J) → State W J → Attempt J → State W J × Outcome J
  unfolding close_audit
  settle name spec audit s (completed output) = (
    close_audit audit succeeded (some (audit_outputs output)) none s,
    record {
      kind = success;
      output = some output;
      error_message = none;
      message = none;
      approval_id = none;
      approval_summary = none;
      audit_id = id_of audit;
    },
  )
  settle name spec audit s (crashed message) = (
    close_audit audit failed none (some (handler_raised message)) s,
    failure (handler_raised message) (id_of audit),
  )
  settle name spec audit s (mismatched message) = (
    close_audit audit failed none (some (logged_output_invalid message)) s,
    failure (output_invalid name (retries spec + 1) message) (id_of audit),
  )

  -- Step 4 of `invoke_tool`: open the audit row, run the handler, close the row.
  unfoldable pub execute : Text → Tool W J → J → Context → State W J → State W J × Outcome J
  execute name t input ctx s =
      let audit = open_audit name t.spec (env.jsonable input) ctx (env.reading s.world) in
      if t.spec.side_effect
      then (let (s', a) = run_attempts t input ctx (retries t.spec) (write_audit audit s) in
          settle name t.spec (some audit) s' a)
      else (let (s', a) = run_attempts t input ctx (retries t.spec) s in
          settle name t.spec none s' a)

  -- Step 3: the approval gate.
  unfoldable pub gate : Text → Tool W J → J → Context → State W J → State W J × Outcome J
  gate name t input ctx s =
      let approval_id = approval_id_for ctx.turn_id name in
      if is_gated t.spec
      then elim (lookup approval_id ctx.approvals) [
        | none ↦ (
          s,
          record {
            kind = approval_needed;
            output = none;
            error_message = none;
            message = none;
            approval_id = some approval_id;
            approval_summary = some (summary_for name input);
            audit_id = none;
          },
        )
        | some granted ↦ if granted then execute name t input ctx s else (
          write_audit (rejected_audit name (env.jsonable input) ctx (env.reading s.world) none) s,
          failure (approval_denied name) (some (env.reading s.world).id),
        )
      ]
      else execute name t input ctx s

  -- Step 2: the role check, before the gate.
  unfoldable pub check_role : Text → Tool W J → J → Context → State W J → State W J × Outcome J
  check_role name t input ctx s =
      let reason = role_not_in ctx.actor_role t.spec.approval_roles in
      if role_denied t.spec ctx.actor_role
      then (
        write_audit
            (rejected_audit name (env.jsonable input) ctx (env.reading s.world)
              (some (logged_role_not_in ctx.actor_role t.spec.approval_roles)))
            s,
        record {
          kind = permission_denied;
          output = none;
          error_message = some (role_not_permitted ctx.actor_role name);
          message = some reason;
          approval_id = none;
          approval_summary = none;
          audit_id = some (env.reading s.world).id;
        },
      )
      else gate name t input ctx s

  -- `invoke_tool`: the registry, the input validation, then the steps above.
  unfoldable pub invoke_tool :
      Dict Text (Tool W J) → Text → J → Context → State W J → State W J × Outcome J
  invoke_tool registry name input ctx s = elim (lookup name registry) [
    | none ↦ (s, failure (unknown_tool name) none)
    | some t ↦ elim (env.input_error t.spec.input_schema input) [
      | some message ↦ (s, failure (invalid_input name message) none)
      | none ↦ check_role name t input ctx s
    ]
  ]
