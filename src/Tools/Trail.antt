-- ===== src/Tools/Trail.antt =====
-- What the audit log records of a call: `invoke_tool` of tools.py, steps 2 to 4.
use voyagent.Prelude.{Option, ◌≡◌, ◌≢◌, none, some, List, [], ◌∷◌, ◌++◌}
use voyagent.Prelude.Text.{Text, text_key}
use voyagent.Prelude.Dict.{Dict}
use voyagent.Tools.{
  State, Externals, Outcome, AuditEvent, AuditStatus, started, succeeded, failed, rejected, Kind,
  success, ErrorText, output_invalid, logged_output_invalid, audit_outputs,
}

-- The status that closes the row of a call with this outcome.
abbrev pub closing : Kind → AuditStatus
closing success = succeeded
closing _ = failed

-- The outputs that a closed row has, if the outcome carries an output.
abbrev pub output_map : {J : Type 0} → (J → J) → Option J → Option J
output_map f none = none
output_map f (some output) = some (f output)

-- What the log says of an error: the message of the outcome, but for an output that was rejected
-- twice, of which the outcome tells more.
abbrev pub logged : Option ErrorText → Option ErrorText
logged (some (output_invalid name attempts message)) = some (logged_output_invalid message)
logged other = other

-- The rows that a call with outcome `r` adds to the log; `acts` says that its tool has side effects.
pub data Trail {W J : Type 0} (env : Externals W J) (input : J) (acts : Type 0) (r : Outcome J)
    : List (AuditEvent J) → Type 0 where
  silent : (r.kind ≡ success → ¬ acts) → r.audit_id ≡ none → Trail env input acts r []
  refused :
      (e : AuditEvent J)
      → e.status ≡ rejected
      → e.inputs ≡ env.jsonable input
      → r.kind ≢ success
      → r.audit_id ≡ some e.id
      → Trail env input acts r (e ∷ [])
  recorded :
      (opened closed : AuditEvent J)
      → opened.status ≡ started
      → closed.status ≡ closing r.kind
      → closed.id ≡ opened.id
      → opened.inputs ≡ env.jsonable input
      → closed.inputs ≡ opened.inputs
      → closed.outputs ≡ output_map (audit_outputs env) r.output
      → closed.error ≡ logged r.error_message
      → r.audit_id ≡ some opened.id
      → Trail env input acts r (opened ∷ closed ∷ [])

module _ {W J : Type 0} (env : Externals W J) where
  abbrev Recorded : J → Type 0 → State W J → State W J × Outcome J → Type 0
  Recorded input acts s r =
      (rows : List (AuditEvent J)) × (r.0.audits ≡ s.audits ++ rows) × Trail env input acts r.1 rows
