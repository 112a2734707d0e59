-- ===== src/HttpServer.antt =====
-- The handlers of src/server/http_server.cpp over the session manager. httplib is a parameter: it turns
-- a request into its body and the groups that the route's pattern matched, and sends the response.

pub mod Create
pub mod Stream
pub mod Routes
pub mod Collector
mod Tests
use Prim.Native.String.{String, ◌++◌ as ◌<>◌}
use forge_lock_free.Base.{
  ℕ, ◌%◌, ◌^◌, ◌⊎◌, inl, inr, Bool, true, Option, none, some, List, [], ◌∷◌, if◌then◌else◌,
}
use forge_lock_free.Chat.{empty}
use forge_lock_free.Chat.Json.{Outcome, done, threw, ◌>>=◌, Library, each}
use forge_lock_free.Session.{SessionConfig, session_state_name}
use forge_lock_free.WorkflowFactory.{Factory}
use forge_lock_free.SessionManager.{
  CreateSessionRequest, SessionInfo, Manager, create_session, get_session, cancel_session,
  list_sessions, active_count,
}

pub record Request : Type 0 where
  pub body : String
  pub matches : ℕ → String

-- A status that the handler leaves alone is sent as 200. `provider` is the session of the chunked
-- content provider.
pub record Response : Type 0 where
  pub status : Option ℕ
  pub headers : List (String × String)
  pub content : String
  pub content_type : String
  pub provider : Option ℕ

abbrev pub json_content : Option ℕ → String → Response
json_content status content = record {
  status = status;
  headers = [];
  content = content;
  content_type = "application/json";
  provider = none;
}

abbrev pub not_found : Response
not_found = json_content (some 404) "{\"error\":\"Session not found\"}"

-- The member initializers of `SessionConfig`.
abbrev pub default_config : SessionConfig
default_config = record { max_iterations = 15; max_history = 100; timeout = 300 }

module _ (l : Library) where
  open l use {
    Json, string, number, boolean, array, object, member, value, get_string, get_number, is_array,
    elements, parse, dump,
  }

  unfoldable pub read_tools : Option Json → Outcome (List String)
  unfolding each
  read_tools none = done []
  read_tools (some t) = if is_array t then each l get_string (elements t) else done []

  -- `get<unsigned>` of a member that is there.
  unfoldable pub read_unsigned : ℕ → Option Json → Outcome ℕ
  read_unsigned d none = done d
  read_unsigned d (some j) = do n ← get_number j; done (n % 2 ^ 32)

  -- The request for the manager, or `none` when the prompt is missing.
  -- The fields after the prompt.
  unfoldable pub read_fields : Json → String → Outcome CreateSessionRequest
  unfolding read_tools read_unsigned
  read_fields j prompt = do
    system_message ← value j "system_message" "You are a helpful assistant."
    workflow ← value j "workflow" "react"
    tools ← read_tools (member j "tools")
    max_iterations ← read_unsigned 15 (member j "max_iterations")
    timeout ← read_unsigned 300 (member j "timeout_seconds")
    done (record {
      prompt = prompt;
      system_message = system_message;
      workflow = workflow;
      tools = tools;
      config = record default_config { max_iterations = max_iterations; timeout = timeout };
    })

  -- The request for the manager, or `none` when the prompt is missing.
  unfoldable pub read_request : String → Outcome (Option CreateSessionRequest)
  unfolding read_fields
  read_request body = do
    j ← parse body
    prompt ← value j "prompt" ""
    if empty prompt then done none else (read_fields j prompt >>= λ r. done (some r))

  unfoldable pub error_body : String → String
  error_body e = dump (object (("error", string e) ∷ []))

  abbrev pub invalid_id : String → Response
  invalid_id e = json_content (some 400) (error_body ("Invalid session ID: " <> e))

  -- The response of a handler that reads an id first.
  unfoldable pub with_id : {A : Type 0} → (String → A) → (ℕ → A) → Outcome ℕ → A
  with_id bad k (threw e) = bad e
  with_id bad k (done id) = k id

  abbrev pub created_body : ℕ → String
  created_body id = dump (object (("id", number id) ∷ []))

  abbrev pub session_body : SessionInfo → String
  session_body i = dump (
      object (
        ("id", number i.id)
        ∷ ("state", string (session_state_name i.state))
        ∷ ("step_count", number i.step_count)
        ∷ ("answer", string i.final_answer)
        ∷ ("error", string i.error)
        ∷ []))

  abbrev pub session_response : Option SessionInfo → Response
  session_response none = not_found
  session_response (some i) = json_content none (session_body i)

  module _ (hash : ℕ → ℕ) where
    -- What `create_session` answers.
    unfoldable pub answer : Manager × (ℕ ⊎ String) → Manager × Response
    unfolding error_body
    answer (m, inl id) = (m, json_content (some 201) (created_body id))
    answer (m, inr e) = (m, json_content (some 503) (error_body e))

    unfoldable pub handle_create_session :
        {W : Type 0}
        → Factory W
        → (ready : ℕ → Bool) → (decimal : ℕ → String) → (now : ℕ) → Request
        → Manager
        → Manager × Response
    unfolding read_request error_body answer
    handle_create_session factory ready decimal now req m = elim (read_request req.body) [
      | threw e ↦ (m, json_content (some 400) (error_body ("Invalid request: " <> e)))
      | done none ↦ (m, json_content (some 400) "{\"error\":\"Missing 'prompt' field\"}")
      | done (some r) ↦ answer (create_session hash factory ready decimal now r m)
    ]

    -- `stoull` throws on a number past 64 bits.
    module _ (stoull : String → Outcome ℕ) where
      unfoldable pub handle_get_session : Request → Manager → Response
      handle_get_session req m =
          with_id invalid_id (λ id. session_response (get_session hash id m))
            (stoull (req.matches 1))

      unfoldable pub handle_delete_session : Request → Manager → Manager × Response
      handle_delete_session req m =
          with_id (λ e. (m, invalid_id e))
            (λ id.
              let r = cancel_session hash id m in
              if r.1
              then (r.0, json_content none (dump (object (("cancelled", boolean true) ∷ []))))
              else (r.0, not_found))
            (stoull (req.matches 1))

      -- What `handle_subscribe` does before the stream.
      unfoldable pub handle_subscribe : Request → Manager → Response
      handle_subscribe req m =
          with_id (λ e. json_content (some 400) "{\"error\":\"Invalid session ID\"}")
            (λ id. elim (get_session hash id m) [
              | none ↦ not_found
              | some i ↦ record {
                status = none;
                headers =
                    ("Cache-Control", "no-cache")
                    ∷ ("Connection", "keep-alive")
                    ∷ ("X-Accel-Buffering", "no")
                    ∷ [];
                content = "";
                content_type = "text/event-stream";
                provider = some id;
              }
            ])
            (stoull (req.matches 1))

    abbrev pub entry : SessionInfo → Json
    entry i = object (
        ("id", number i.id)
        ∷ ("state", string (session_state_name i.state))
        ∷ ("step_count", number i.step_count)
        ∷ [])

    -- The loop over the ids.
    unfoldable pub entries : Manager → List ℕ → List Json
    entries m [] = []
    entries m (id ∷ ids) =
        let rest = entries m ids in
        elim (get_session hash id m) [ none ↦ rest | some i ↦ entry i ∷ rest ]

    unfoldable pub handle_list_sessions : Manager → Response
    handle_list_sessions m =
        json_content none (dump (object (("sessions", array (entries m (list_sessions m))) ∷ [])))

  unfoldable pub handle_health : Manager → Response
  handle_health m =
      json_content none (
        dump (object (("status", string "ok") ∷ ("active_sessions", number (active_count m)) ∷ [])))
