-- ===== src/Tools/Types.antt =====
-- The data of tools.py: specs, contexts, outcomes, and the audit events of
-- schemas/canonical/lifecycle.py that the gate writes.
use voyagent.Prelude.{ℕ, Bool, Option, List}
use voyagent.Prelude.Text.{Text}
use voyagent.Prelude.Dict.{Dict}

pub data ActorKind : Type 0 where
  human agent system : ActorKind

pub data AuditStatus : Type 0 where
  started succeeded failed rejected cancelled : AuditStatus

pub record ToolSpec (J : Type 0) : Type 0 where
  pub name : Text
  pub input_schema : J
  pub output_schema : Option J
  pub side_effect : Bool
  pub approval_required : Bool
  pub approval_roles : List Text

-- `extensions` is the part of the context that calls change: see `State`.
pub record Context : Type 0 where
  pub tenant_id : Text
  pub actor_id : Text
  pub actor_kind : ActorKind
  pub session_id : Text
  pub turn_id : Text
  pub actor_role : Text
  pub approvals : Dict Text Bool

-- What a handler does: it returns a payload, or raises a `DriverError` or any other exception,
-- of which the rendering `{type}: {message}` is kept.
pub data HandlerResult (J : Type 0) : Type 0 where
  returned : J → HandlerResult J
  raised : Text → HandlerResult J

-- A handler reads its input, the context and the message that a rejected output left for it.
pub record Tool (W J : Type 0) : Type 0 where
  pub spec : ToolSpec J
  pub handler : J → Context → Option Text → W → W × HandlerResult J

-- The messages of errors, by the f-string that builds them; those that start with `logged` are the
-- ones that only the audit log gets.
pub data ErrorText : Type 0 where
  unknown_tool : Text → ErrorText
  invalid_input : Text → Text → ErrorText
  role_not_in : Text → List Text → ErrorText
  logged_role_not_in : Text → List Text → ErrorText
  role_not_permitted : Text → Text → ErrorText
  approval_denied : Text → ErrorText
  handler_raised : Text → ErrorText
  output_invalid : Text → ℕ → Text → ErrorText
  logged_output_invalid : Text → ErrorText

pub record AuditEvent (J : Type 0) : Type 0 where
  pub id : Text
  pub tenant_id : Text
  pub actor_id : Text
  pub actor_kind : ActorKind
  pub tool : Text
  pub inputs : J
  pub outputs : Option J
  pub error : Option ErrorText
  pub approval_required : Bool
  pub approved_by : Option Text
  pub approved_at : Option ℕ
  pub started_at : ℕ
  pub completed_at : Option ℕ
  pub status : AuditStatus

pub data Summary : Type 0 where
  specific_summary : Text → Summary
  default_summary : Text → Text → Summary

pub data Kind : Type 0 where
  success error approval_needed permission_denied : Kind

-- `ToolInvocationOutcome`.
pub record Outcome (J : Type 0) : Type 0 where
  pub kind : Kind
  pub output : Option J
  pub error_message : Option ErrorText
  pub message : Option ErrorText
  pub approval_id : Option Text
  pub approval_summary : Option Summary
  pub audit_id : Option Text

-- What one call would get from `uuid` and from the clock in a given world.
pub record Reading : Type 0 where
  pub id : Text
  pub now : ℕ

-- What the gate takes from outside: the validators give the message of the error that they raise,
-- and `jsonable` is what `_jsonable` makes of a value by Python's `str`.
pub record Externals (W J : Type 0) : Type 0 where
  pub input_error : J → J → Option Text
  pub output_error : J → J → Option Text
  pub approval_summaries : Dict Text (J → Option Text)
  pub brief : J → Text
  pub reading : W → Reading
  pub is_dict : J → Bool
  pub empty_dict : J
  pub jsonable : J → J

-- What a call may change: the world of the handlers, the audit log and `ctx.extensions`.
pub record State (W J : Type 0) : Type 0 where
  pub world : W
  pub audits : List (AuditEvent J)
  pub last_output_error : Option Text

-- How the loop around the handler ends.
pub data Attempt (J : Type 0) : Type 0 where
  completed : J → Attempt J
  mismatched : Text → Attempt J
  crashed : Text → Attempt J
