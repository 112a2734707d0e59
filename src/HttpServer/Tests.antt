-- ===== src/HttpServer/Tests.antt =====
-- The handlers and the stream on a library with one known body.
use Prim.Native.String.{String}
use forge_lock_free.Base.{ℕ, ◌≡◌, refl, true, false, Option, none, some, List, [], ◌∷◌, arith}
use forge_lock_free.Chat.Json.{Outcome, done, Library}
use forge_lock_free.Chat.Instance.{library, object, fields, string, number}
use forge_lock_free.Session.{Session, SessionState, created, waiting_for_llm, completed, make}
use forge_lock_free.WorkflowFactory.{Factory, has, constructor}
use forge_lock_free.ConcurrentMap.{find, lookup, insert_if_under, size_from}
use forge_lock_free.SessionManager.{
  Manager, SessionInfo, CreateSessionRequest, init, active_count, create_session,
}
use forge_lock_free.SessionManager.Create.{Own, create-bound}
use forge_lock_free.HttpServer.{
  Request, Response, json_content, default_config, created_body, read_request, read_fields,
  read_tools, read_unsigned, answer, handle_create_session,
}
use forge_lock_free.Metrics.{zeroed}
use forge_lock_free.HttpServer.Routes.{get, delete, Matcher, serve}
use forge_lock_free.HttpServer.Routes.Safe.{Kept, serve-Kept}
use forge_lock_free.HttpServer.Stream.{fresh, stream, poll, state_event, done_event}
use forge_lock_free.HttpServer.Stream.Events.{Told, stream-events}

abbrev known : Library
known =
    library (object (fields (("prompt", string "hi") ∷ ("max_iterations", number 4294967299) ∷ [])))

abbrev same : ℕ → ℕ
same n = n

abbrev request : Request
request = record { body = ""; matches = λ i. "1" }

abbrev workflows : Factory ℕ
workflows = ("react", 0) ∷ []

abbrev blank : ℕ → Session
blank i = make i default_config 0

abbrev read_one : String → Outcome ℕ
read_one s = done 1

abbrev idle : Manager
idle = init 1 blank

nobody-Own : Own same idle
unfolding find lookup
nobody-Own j p h = ground arith

abbrev posted : Manager × Response
posted = handle_create_session known same workflows (λ i. false) (λ n. "1") 5 request idle

-- What the body says.
abbrev read_body : CreateSessionRequest
read_body = record {
  prompt = "hi";
  system_message = "You are a helpful assistant.";
  workflow = "react";
  tools = [];
  config = record { max_iterations = 3; max_history = 100; timeout = 300 };
}

posted-Own : Own same posted.0
unfolding handle_create_session read_request read_fields read_tools read_unsigned answer
    active_count size_from create_session has insert_if_under constructor
posted-Own =
    (create-bound same workflows (λ i. false) (λ n. "1") 5 read_body idle nobody-Own
      (omega arith)).1

-- The number of iterations wraps at 32 bits.
reads : read_request known "" ≡ done (some read_body)
unfolding read_request read_fields read_tools read_unsigned
reads = refl

accepted : posted.1 ≡ json_content (some 201) (created_body known 1)
unfolding handle_create_session read_request read_fields read_tools read_unsigned answer
    create_session insert_if_under size_from has constructor
accepted = refl

abbrev info_at : SessionState → ℕ → SessionInfo
info_at s n = record { id = 1; state = s; step_count = n; final_answer = ""; error = "" }

abbrev seen : SessionState → ℕ → Option SessionInfo
seen s n = some (info_at s n)

abbrev watched : List (Option SessionInfo)
watched =
    seen created 0 ∷ seen waiting_for_llm 1 ∷ seen waiting_for_llm 1 ∷ seen completed 1 ∷ none ∷ []

told : stream known watched fresh ≡ (
  state_event known (info_at waiting_for_llm 1)
      ∷ state_event known (info_at completed 1)
      ∷ done_event
      ∷ [],
  true,
)
unfolding stream poll
told = refl

stream-events_example :
    Told known fresh watched (stream known watched fresh).0 (stream known watched fresh).1
stream-events_example = stream-events known watched fresh

abbrev always : Matcher
always pattern path = some (λ i. "1")

serve-Kept_example :
    ((serve known same read_one always workflows
        (λ i. false)
        (λ n. "1")
        5
        zeroed
        get
        "/"
        ""
        posted.0).0
      ≡ posted.0)
    × Kept same posted.0
        (serve known same read_one always workflows
          (λ i. false)
          (λ n. "1")
          5
          zeroed
          delete
          "/"
          ""
          posted.0).0
        1
serve-Kept_example =
    serve-Kept known same read_one always workflows (λ i. false) (λ n. "1") 5 zeroed "/" "" posted.0
      1 posted-Own
