-- ===== src/Agent/Types.antt =====
-- internal/agent/types.go and the chat types of internal/llm/types.go. Of a chat message the agent
-- reads and writes the role and the content; its other fields are not modelled.
use animus_coder.Base.{ℕ, Bool, Option, List, Text, ℤ}
use animus_coder.Llm.Registry.{ModelRoute}

pub data Role : Type 0 where
  system user assistant tool : Role

pub record ChatMessage : Type 0 where
  pub role : Role
  pub content : Text

pub record ChatRequest : Type 0 where
  pub model : Text
  pub messages : List ChatMessage
  pub max_tokens : ℤ
  pub temperature : ℤ
  pub stream : Bool

pub record ChatResponse : Type 0 where
  pub message : ChatMessage
  pub finish_reason : Text

pub record ContextFile : Type 0 where
  pub path : Text
  pub content : Text

pub record Request : Type 0 where
  pub session_id : Text
  pub model : Text
  pub prompt : Text
  pub context : List ContextFile

pub record Response : Type 0 where
  pub message : ChatMessage
  pub route : ModelRoute
  pub finish_reason : Text
  pub previous_assistant : Text

pub record ToolObservation : Type 0 where
  pub name : Text
  pub output : Text
  pub error : Text

pub record TestObservation : Type 0 where
  pub command : Text
  pub output : Text
  pub exit_code : ℤ
  pub error : Text
  pub summary : Text
  pub failing : List Text
  pub attempts : ℕ

pub record ReflectionContext : Type 0 where
  pub tools : List ToolObservation
  pub test : Option TestObservation
  pub self_diff : Text
