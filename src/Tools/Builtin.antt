-- ===== src/Tools/Builtin.antt =====
-- `register_calculator` of src/tools/builtin/calculator.h and `register_web_search` of
-- src/tools/builtin/web_search.h: the tools as they enter the registry, with their handlers. The
-- schemas are those that `Json::parse` makes of their texts, a parameter.
pub mod Answers
use Prim.Native.String.{String, ◌++◌ as ◌<>◌}
use forge_lock_free.Base.{
  ℕ, ◌-◌, ◌&&◌, Bool, true, false, Option, none, some, List, [], ◌∷◌, if◌then◌else◌, length,
}
use forge_lock_free.Base.Text.{codes}
use forge_lock_free.Chat.{empty}
use forge_lock_free.Chat.Json.{Outcome, done, Library, ◌>>=◌, threw as thrown}
use forge_lock_free.Tools.Registry.{Ended, returned, threw, ToolSpec, RegisteredTool}
use forge_lock_free.Tools.Calculator.{
  Arithmetic, Failure, unexpected, expected_number, division_by_zero, missing_parenthesis,
  bad_number, Result, ok, failed, out_of_fuel, parse,
}

-- `result == std::floor(result)`, `std::abs(result) < 1e15`, `std::to_string` of the value cast to long
-- long and of the double itself, `std::to_string` of a position, and what `stod` throws.
pub record Format (D : Type 0) : Type 0 where
  pub is_whole : D → Bool
  pub is_small : D → Bool
  pub whole_to_string : D → String
  pub to_string : D → String
  pub position_to_string : ℕ → String
  pub stod_what : String

-- A required text of the arguments.
unfoldable pub argument : (l : Library) → String → String → Outcome String
argument l key args = do
  j ← l.parse args
  text ← l.value j key ""
  if empty text then thrown ("Missing '" <> key <> "' parameter") else done text

module _ (l : Library) (a : Arithmetic) (format : Format a.Double) where
  open a use {Double}
  open format use {is_whole, is_small, whole_to_string, to_string, position_to_string, stod_what}

  -- The message of an exception of the parser, for a text of `size` characters.
  unfoldable pub message : ℕ → Failure → String
  message size (unexpected left) =
      "Unexpected character at position " <> position_to_string (size - left)
  message size (expected_number left) =
      "Expected number at position " <> position_to_string (size - left)
  message size division_by_zero = "Division by zero"
  message size missing_parenthesis = "Missing closing parenthesis"
  message size bad_number = stod_what

  unfoldable pub show_result : Double → String
  show_result x = if is_whole x && is_small x then whole_to_string x else to_string x

  -- The handler, or `none` if the parser runs out of fuel.
  unfoldable pub calculate : String → Option Ended
  unfolding argument message show_result
  calculate args = elim (argument l "expression" args) [
    | thrown e ↦ some (threw e)
    | done text ↦ elim (parse a (codes text)) [
      | ok x ↦ some (returned (show_result x))
      | failed f ↦ some (threw (message (length (codes text)) f))
      | out_of_fuel ↦ none
    ]
  ]

module _ (l : Library) where
  unfoldable pub web_search : String → Ended
  unfolding argument
  web_search args = elim (argument l "query" args) [
    | thrown e ↦ threw e
    | done query ↦ returned (
        "[web_search] No search API configured. Query was: \"" <> query
        <> "\". To enable real search, configure a SerpAPI or Brave Search API key. For now, try using other tools to answer the question.")
  ]

  -- The tool that is registered under its own name.
  unfoldable pub web_search_tool : l.Json → RegisteredTool l.Json
  unfolding web_search
  web_search_tool schema = record {
    spec = record {
      name = "web_search";
      description = "Search the web for information. Returns a summary of top results.";
      parameters = schema;
      timeout_ms = 15000;
      allow_parallel = true;
      idempotent = false;
    };
    handler = web_search;
  }
