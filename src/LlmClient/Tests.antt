-- ===== src/LlmClient/Tests.antt =====
-- Responses read in a small JSON type, and the theorems at them.
use forge_lock_free.Base.{ℕ, ◌≡◌, refl}
use forge_lock_free.Chat.Json.{done, to_json}
use forge_lock_free.Chat.Instance.{Value, null, object, no_fields, library, library-Laws, calling}
use forge_lock_free.LlmClient.{
  HttpReply, respond, read_parsed, read_body, report, fill_message, fill_usage, fill_model,
}
use forge_lock_free.LlmClient.Reading.{completion, Unharmed, respond-completion, respond-no_error}
use Prim.Native.String.{String}

abbrev decimal : ℕ → String
decimal n = "429"

abbrev body : Value
body = completion (library null) (library-Laws null) calling 12 7 "gpt-4o"

too_many :
    (respond
      (library null)
      decimal
      "gpt-4o"
      (record { status = 429; body = "slow down"; error = "" })).error
    ≡ "API error (HTTP 429): slow down"
unfolding respond
too_many = refl

respond-completion_example :
    respond (library body) decimal "gpt-4" (record { status = 200; body = "{...}"; error = "" })
    ≡ record {
      message = calling;
      prompt_tokens = 12;
      completion_tokens = 7;
      model = "gpt-4o";
      error = "";
    }
unfolding to_json
respond-completion_example =
    respond-completion (library body) (library-Laws body) decimal "gpt-4o" calling 12 7 "{...}"
      "gpt-4" refl

abbrev nothing : HttpReply
nothing = record { status = 200; body = "{}"; error = "" }

-- An empty object is read without an error.
respond-no_error_example :
    (nothing.error ≡ "")
    × (nothing.status ≡ 200)
    × (j : Value) × ((library (object no_fields)).parse nothing.body ≡ done j)
    × Unharmed (library (object no_fields)) j
unfolding respond read_parsed read_body report fill_message fill_usage fill_model
respond-no_error_example =
    respond-no_error (library (object no_fields)) decimal "gpt-4" nothing refl
