-- ===== src/Chat/Json.antt =====
-- The conversion of messages to and from JSON in src/llm/message.h, and that of a history in
-- src/session/conversation.h. nlohmann::json is a parameter.
use forge_lock_free.Base.{
  ℕ, ◌≡◌, Bool, true, false, not, ◌&&◌, Option, none, some, List, [], ◌∷◌, ◌++◌, map, if◌then◌else◌,
}
use forge_lock_free.Chat.{ToolCall, Message, empty, has_tool_calls, has_content}
use Prim.Native.String.{String}
use text.Mathlib.Text.{◌==◌ as str_eq}

-- A value, or the text of an exception.
pub data Outcome {ℓ} (A : Type ℓ) : Type ℓ where
  done : A → Outcome A
  threw : String → Outcome A

infixl 5 ◌>>=◌
abbrev pub ◌>>=◌ {ℓ κ} : {A : Type ℓ} {B : Type κ} → Outcome A → (A → Outcome B) → Outcome B
threw e >>= k = threw e
done a >>= k = k a

-- What the program uses of nlohmann::json. `member` is `contains` with `operator[]`, the `value`s are
-- `value` with "" or another text and with 0, `get_string` is `get<std::string>`, `elements` are what a loop
-- over a value meets, and `front` is the element at index 0. Of numbers it knows those from 0 on.
pub record Library : Type 1 where
  pub Json : Type 0
  pub null : Json
  pub string : String → Json
  pub number : ℕ → Json
  pub boolean : Bool → Json
  pub array : List Json → Json
  pub object : List (String × Json) → Json
  pub member : Json → String → Option Json
  pub value : Json → String → String → Outcome String
  pub value_number : Json → String → Outcome ℕ
  pub get_string : Json → Outcome String
  pub get_number : Json → Outcome ℕ
  pub is_null : Json → Bool
  pub is_array : Json → Bool
  pub is_empty : Json → Bool
  pub elements : Json → List Json
  pub front : Json → Outcome Json
  pub parse : String → Outcome Json
  pub dump : Json → String

abbrev pub lookup {ℓ} : {A : Type ℓ} → String → List (String × A) → Option A
lookup k [] = none
lookup k ((j, v) ∷ r) = if str_eq j k then some v else lookup k r

abbrev pub or_else {ℓ κ} :
    {A : Type ℓ} {B : Type κ} → Outcome B → (A → Outcome B) → Option A → Outcome B
or_else d f none = d
or_else d f (some a) = f a

-- What its documentation says of values built from their parts.
pub record Laws (l : Library) : Type 0 where
  pub member-object :
      (fs : List (String × l.Json)) (k : String) → l.member (l.object fs) k ≡ lookup k fs
  pub value-object :
      (fs : List (String × l.Json)) (k d : String)
      → l.value (l.object fs) k d ≡ or_else (done d) l.get_string (lookup k fs)
  pub value_number-object :
      (fs : List (String × l.Json)) (k : String)
      → l.value_number (l.object fs) k ≡ or_else (done 0) l.get_number (lookup k fs)
  pub get_string-string : (s : String) → l.get_string (l.string s) ≡ done s
  pub get_number-number : (n : ℕ) → l.get_number (l.number n) ≡ done n
  pub is_null-null : l.is_null l.null ≡ true
  pub is_null-string : (s : String) → l.is_null (l.string s) ≡ false
  pub is_empty-array : (x : l.Json) (xs : List l.Json) → l.is_empty (l.array (x ∷ xs)) ≡ false
  pub elements-array : (xs : List l.Json) → l.elements (l.array xs) ≡ xs
  pub front-array : (x : l.Json) (xs : List l.Json) → l.front (l.array (x ∷ xs)) ≡ done x

module _ (l : Library) where
  open l use {Json, null, string, array, object, member, value, get_string, is_null, elements}

  unfoldable pub call_to_json : ToolCall → Json
  call_to_json tc = object (
      ("id", string tc.id)
      ∷ ("type", string "function")
      ∷ (
        "function",
        object (("name", string tc.name) ∷ ("arguments", string tc.arguments_json) ∷ []),
      )
      ∷ [])

  unfoldable pub content_member : Message → List (String × Json)
  unfolding has_content has_tool_calls
  content_member m =
      if has_content m
      then ("content", string m.content) ∷ []
      else if not (str_eq m.role "assistant" && has_tool_calls m)
      then ("content", null) ∷ []
      else []

  unfoldable pub calls_member : Message → List (String × Json)
  unfolding has_tool_calls call_to_json
  calls_member m =
      if has_tool_calls m then ("tool_calls", array (map call_to_json m.tool_calls)) ∷ [] else []

  unfoldable pub id_member : Message → List (String × Json)
  id_member m = if empty m.tool_call_id then [] else ("tool_call_id", string m.tool_call_id) ∷ []

  -- `to_json` of a message.
  unfoldable pub to_json : Message → Json
  unfolding content_member calls_member id_member
  to_json m =
      object (("role", string m.role) ∷ (content_member m ++ (calls_member m ++ id_member m)))

  -- `to_json` of a conversation.
  unfoldable pub messages_to_json : List Message → Json
  unfolding to_json
  messages_to_json ms = array (map to_json ms)

  unfoldable pub call_from_json : Json → Outcome ToolCall
  call_from_json tc = do
    id ← value tc "id" ""
    elim (member tc "function") [
      | none ↦ done (record { id = id; name = ""; arguments_json = "" })
      | some f ↦ do
        name ← value f "name" ""
        arguments ← value f "arguments" ""
        done (record { id = id; name = name; arguments_json = arguments })
    ]

  -- A loop that stops at the first exception.
  unfoldable pub each {ℓ} : {A : Type ℓ} → (Json → Outcome A) → List Json → Outcome (List A)
  each f [] = done []
  each f (j ∷ js) = do a ← f j; more ← each f js; done (a ∷ more)

  unfoldable pub read_content : Option Json → Outcome String
  read_content none = done ""
  read_content (some c) = if is_null c then done "" else get_string c

  unfoldable pub read_calls : Option Json → Outcome (List ToolCall)
  unfolding each call_from_json
  read_calls none = done []
  read_calls (some c) = each call_from_json (elements c)

  unfoldable pub read_id : Option Json → Outcome String
  read_id none = done ""
  read_id (some c) = get_string c

  unfoldable pub from_json : Json → Outcome Message
  unfolding read_content read_calls read_id
  from_json j = do
    role ← value j "role" ""
    content ← read_content (member j "content")
    calls ← read_calls (member j "tool_calls")
    id ← read_id (member j "tool_call_id")
    done (record { role = role; content = content; tool_calls = calls; tool_call_id = id })
