-- ===== src/AgentLoop/Types.antt =====
-- The data of the agent loop: what the model streams, the transcript, and the events of
-- services/agent_runtime/src/voyagent_agent_runtime/events.py that a turn emits.
use voyagent.Prelude.{ℕ, Bool, Option, List}
use voyagent.Prelude.Text.{Text}
use voyagent.Tools.{ErrorText, Summary, State}
use voyagent.RateLimiter.{Scope}

-- A content block of an assistant message.
pub data Block (J : Type 0) : Type 0 where
  text_block : Text → Block J
  tool_use : Text → Text → J → Block J
  other_block : Text → Block J

pub record FinalMessage (J : Type 0) : Type 0 where
  pub stop_reason : Text
  pub content : List (Block J)

-- The events of a stream that the loop reads; `other_event` is any other, also a `message_stop`
-- that carries no message.
pub data StreamEvent (J : Type 0) : Type 0 where
  text_event : Text → StreamEvent J
  message_stop : FinalMessage J → StreamEvent J
  other_event : StreamEvent J

-- An exception of the client: the names of its classes, what `_retry_after_seconds` reads off it
-- (in milliseconds), and its rendering.
pub record Exc : Type 0 where
  pub mro : List Text
  pub retry_after : Option ℕ
  pub rendered : Text

-- One call of `stream_messages`: what it yields, and the exception that breaks it, if any.
pub record Stream (J : Type 0) : Type 0 where
  pub yielded : List (StreamEvent J)
  pub failure : Option Exc

-- What a tool result shows of a call: its output, `{"error": …}`, or a refusal by the role check.
pub data Payload (J : Type 0) : Type 0 where
  output_of : J → Payload J
  error_of : Option ErrorText → Payload J
  denial_of : Option ErrorText → Payload J

pub data ResultContent (J : Type 0) : Type 0 where
  handled : ResultContent J
  approval_pending : Option Text → ResultContent J
  payload : Payload J → ResultContent J

pub record ToolResult (J : Type 0) : Type 0 where
  pub tool_use_id : Text
  pub content : ResultContent J
  pub is_error : Bool

-- One entry of the transcript.
pub data Message (J : Type 0) : Type 0 where
  user_text : Text → Message J
  assistant : List (Block J) → Message J
  tool_results : List (ToolResult J) → Message J

pub data LoopError : Type 0 where
  model_rate_limited : Text → LoopError
  stream_failed : Text → LoopError
  unknown_domain : Text → LoopError
  tenant_rate_limited : Scope → LoopError
  budget_exceeded : ℕ → ℕ → LoopError

-- `AgentEvent`, without the session and turn ids that all events of a turn share.
pub data Event (J : Type 0) : Type 0 where
  text_delta : Text → Event J
  tool_use_event : Text → J → Text → Event J
  tool_result_event : Text → Payload J → Text → Event J
  approval_request : Text → Text → Option Text → Option Summary → Event J
  error_event : LoopError → Event J
  final_event : Event J

-- What `on_tool_use` gives to intercept a call: its events, and the handoff that it notes.
pub record Override (J : Type 0) : Type 0 where
  pub shown : List (Event J)
  pub target : Option (Text × Text)

-- The state that a turn changes.
pub record Loop (W J : Type 0) : Type 0 where
  pub state : State W J
  pub messages : List (Message J)
  pub handoff : Option (Text × Text)

-- A generator: each event with the state at that `yield`, and the state at its end. A consumer
-- that stops early leaves the state of the event it stops at.
abbrev pub Run : Type 0 → Type 0 → Type 0
Run W J = List (Event J × Loop W J) × Loop W J

-- The Anthropic client and the event loop's timer.
pub record Client (W J : Type 0) : Type 0 where
  pub stream : List (Message J) → W → W × Stream J
  pub last_final_message : W → Option (FinalMessage J)
  pub sleep : ℕ → W → W
  pub is_falsy : J → Bool
