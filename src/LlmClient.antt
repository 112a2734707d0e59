-- ===== src/LlmClient.antt =====
-- The LLM client of src/llm/llm_client.h: the request of `complete`, and what it makes of the HTTP
-- response. The pool and the sending are left to the modules of the pool and of the HTTP client.
pub mod Reading
mod Tests
use forge_lock_free.Base.{
  ℕ, ◌%◌, ◌^◌, Bool, true, false, not, ◌&&◌, ◌==◌, Option, none, some, List, [], ◌∷◌, ◌++◌,
  if◌then◌else◌,
}
use forge_lock_free.Chat.{Message, LlmResponse, empty}
use forge_lock_free.Chat.Json.{Outcome, done, threw, Library, from_json}
use Prim.Native.String.{String, ◌++◌ as ◌<>◌}

-- Strings of the response are whole texts here, where the HTTP client walks their characters.
pub record HttpReply : Type 0 where
  pub status : ℕ
  pub body : String
  pub error : String

-- A response before anything is read into it.
abbrev pub blank : LlmResponse
blank = record {
  message = record { role = ""; content = ""; tool_calls = []; tool_call_id = "" };
  prompt_tokens = 0;
  completion_tokens = 0;
  model = "";
  error = "";
}

-- The response as far as it has been filled, and the text of an exception if one was thrown.
pub data Attempt : Type 0 where
  fine : LlmResponse → Attempt
  caught : LlmResponse → String → Attempt

infixl 5 ◌then_fill◌
abbrev pub ◌then_fill◌ : Attempt → (LlmResponse → Attempt) → Attempt
fine r then_fill k = k r
caught r e then_fill k = caught r e

module _ (l : Library) where
  open l use {
    Json, string, number, object, member, value, value_number, is_array, is_empty, front, parse,
    dump,
  }

  -- `temperature`, a double, is kept as its JSON value.
  pub record Config : Type 0 where
    pub api_base : String
    pub model : String
    pub api_key : String
    pub temperature : Json
    pub max_tokens : ℕ

  pub record Request : Type 0 where
    pub url : String
    pub payload : String
    pub headers : List (String × String)

  -- The constructor, with what `getenv` gives.
  unfoldable pub configure : Option String → Config → Config
  configure none cfg = cfg
  configure (some key) cfg = if empty cfg.api_key then record cfg { api_key = key } else cfg

  unfoldable pub request_body : Config → (messages tools : Json) → Json
  request_body cfg messages tools =
      let tail : List (String × Json) =
        if not (is_empty tools) && is_array tools
        then ("tools", tools) ∷ ("tool_choice", string "auto") ∷ []
        else [] in
      object (
        ("model", string cfg.model)
        ∷ ("messages", messages)
        ∷ ("temperature", cfg.temperature)
        ∷ ("max_tokens", number cfg.max_tokens)
        ∷ tail)

  unfoldable pub request : Config → (messages tools : Json) → Request
  unfolding request_body
  request cfg messages tools = record {
    url = cfg.api_base <> "/v1/chat/completions";
    payload = dump (request_body cfg messages tools);
    headers =
        ("Content-Type", "application/json") ∷ ("Authorization", "Bearer " <> cfg.api_key) ∷ [];
  }

  unfoldable pub fill_message : Json → LlmResponse → Attempt
  fill_message j r = elim (member j "choices") [
    | none ↦ fine r
    | some choices ↦ if is_empty choices then fine r else elim (front choices) [
      | threw e ↦ caught r e
      | done choice ↦ elim (member choice "message") [
        | none ↦ fine r
        | some m ↦ elim (from_json l m) [
          | threw e ↦ caught r e
          | done msg ↦ fine (record r { message = msg })
        ]
      ]
    ]
  ]

  -- The two counts are read as `int`; an `int` stands as its 32 bits, which are the number itself from 0
  -- up to 2^31.
  unfoldable pub fill_usage : Json → LlmResponse → Attempt
  fill_usage j r = elim (member j "usage") [
    | none ↦ fine r
    | some usage ↦ elim (value_number usage "prompt_tokens") [
      | threw e ↦ caught r e
      | done n ↦ elim (value_number usage "completion_tokens") [
        | threw e ↦ caught (record r { prompt_tokens = n % 2 ^ 32 }) e
        | done k ↦ fine (record r { prompt_tokens = n % 2 ^ 32; completion_tokens = k % 2 ^ 32 })
      ]
    ]
  ]

  unfoldable pub fill_model : (model : String) → Json → LlmResponse → Attempt
  fill_model model j r = elim (value j "model" model) [
    | threw e ↦ caught r e
    | done x ↦ fine (record r { model = x })
  ]

  unfoldable pub read_body : (model : String) → Json → Attempt
  unfolding fill_message fill_usage fill_model
  read_body model j = elim (member j "error") [
    | some e ↦ elim (value e "message" "Unknown API error") [
      | threw x ↦ caught blank x
      | done x ↦ fine (record blank { error = x })
    ]
    | none ↦ fill_message j blank then_fill fill_usage j then_fill fill_model model j
  ]

  unfoldable pub report : Attempt → LlmResponse
  report (fine r) = r
  report (caught r e) = record r { error = "Failed to parse API response: " <> e }

  unfoldable pub read_parsed : (model : String) → Outcome Json → LlmResponse
  unfolding report read_body
  read_parsed model (threw e) = report (caught blank e)
  read_parsed model (done j) = report (read_body model j)

  -- The task that `complete` submits; `decimal` is `std::to_string`.
  unfoldable pub respond : (decimal : ℕ → String) → (model : String) → HttpReply → LlmResponse
  unfolding read_parsed
  respond decimal model reply =
      if not (empty reply.error)
      then record blank { error = "HTTP error: " <> reply.error }
      else if not (reply.status == 200)
      then record blank {
        error = "API error (HTTP " <> decimal reply.status <> "): " <> reply.body;
      }
      else read_parsed model (parse reply.body)
