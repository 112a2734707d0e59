-- ===== src/Chat.antt =====
-- The message types of src/llm/message.h.
pub mod Instance
pub mod Json
pub mod RoundTrip
mod Tests
use forge_lock_free.Base.{ℕ, Bool, true, false, not, List, [], ◌∷◌}
use Prim.Native.String.{String}
use text.Mathlib.Text.{◌==◌ as str_eq}

pub record ToolCall : Type 0 where
  pub id : String
  pub name : String
  pub arguments_json : String

pub record ToolResult : Type 0 where
  pub tool_call_id : String
  pub output : String
  pub is_error : Bool

pub record Message : Type 0 where
  pub role : String
  pub content : String
  pub tool_calls : List ToolCall
  pub tool_call_id : String

pub record LlmResponse : Type 0 where
  pub message : Message
  pub prompt_tokens : ℕ
  pub completion_tokens : ℕ
  pub model : String
  pub error : String

-- `std::string::empty`.
abbrev pub empty : String → Bool
empty s = str_eq s ""

unfoldable pub has_tool_calls : Message → Bool
has_tool_calls m = elim m.tool_calls [ [] ↦ false | c ∷ cs ↦ true ]

unfoldable pub has_content : Message → Bool
has_content m = not (empty m.content)

-- A message with a role and a content, the other fields left as they are made.
abbrev pub message : String → String → Message
message role content = record { role = role; content = content; tool_calls = []; tool_call_id = "" }

-- The test that keeps a system message in front.
abbrev pub is_system : Message → Bool
is_system m = str_eq m.role "system"
