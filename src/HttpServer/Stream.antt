-- ===== src/HttpServer/Stream.antt =====
-- The content provider of `handle_subscribe` in src/server/http_server.cpp, which httplib calls until it
-- returns false.
pub mod Events
use Prim.Native.String.{String, ◌++◌ as ◌<>◌}
use forge_lock_free.Base.{
  ℕ, Bool, true, false, not, ◌&&◌, ◌||◌, Option, none, some, List, [], ◌∷◌, ◌++◌, ◌==◌,
  if◌then◌else◌,
}
use forge_lock_free.Chat.{empty}
use forge_lock_free.Chat.Json.{Library}
use forge_lock_free.Session.{
  SessionState, created, waiting_for_llm, executing_tools, waiting_for_human, completed, failed,
  cancelled, session_state_name, terminal,
}
use forge_lock_free.SessionManager.{SessionInfo}

abbrev pub index : SessionState → ℕ
index created = 0
index waiting_for_llm = 1
index executing_tools = 2
index waiting_for_human = 3
index completed = 4
index failed = 5
index cancelled = 6

-- `last_state` and `last_step`, as they are captured.
pub record Cursor : Type 0 where
  pub last_state : SessionState
  pub last_step : ℕ

abbrev pub fresh : Cursor
fresh = record { last_state = created; last_step = 0 }

abbrev pub at : SessionInfo → Cursor
at i = record { last_state = i.state; last_step = i.step_count }

-- What one call does: the texts that it writes, whether it calls `sink.done`, and what it returns.
pub record Poll : Type 0 where
  pub cursor : Cursor
  pub written : List String
  pub closed : Bool
  pub again : Bool

abbrev pub changed : Cursor → SessionInfo → Bool
changed c i = not (index i.state == index c.last_state) || not (i.step_count == c.last_step)

abbrev pub error_event : String
error_event = "event: error\ndata: {\"error\":\"Session not found\"}\n\n"

abbrev pub done_event : String
done_event = "event: done\ndata: {}\n\n"

module _ (l : Library) where
  open l use {Json, string, number, object, dump}

  unfoldable pub text_member : String → String → List (String × Json)
  text_member k t = if empty t then [] else (k, string t) ∷ []

  unfoldable pub state_event : SessionInfo → String
  unfolding text_member
  state_event i =
      "event: state\ndata: "
      <> dump (
          object (
            ("id", number i.id)
            ∷ ("state", string (session_state_name i.state))
            ∷ ("step_count", number i.step_count)
            ∷ (text_member "answer" i.final_answer ++ text_member "error" i.error)))
      <> "\n\n"

  -- A call that reads `info`; `writable` says whether the first write works. A text counts as written
  -- when it is handed to the sink.
  unfoldable pub poll : Option SessionInfo → (writable : Bool) → Cursor → Poll
  poll none writable c = record {
    cursor = c;
    written = error_event ∷ [];
    closed = true;
    again = false;
  }
  poll (some i) writable c =
      if not (changed c i)
      then record { cursor = c; written = []; closed = false; again = true }
      else if not writable
      then record { cursor = at i; written = state_event i ∷ []; closed = false; again = false }
      else if terminal i.state
      then record {
        cursor = at i;
        written = state_event i ∷ done_event ∷ [];
        closed = true;
        again = false;
      }
      else record { cursor = at i; written = state_event i ∷ []; closed = false; again = true }

  -- The calls of the provider for a row of sessions that it reads, while the client listens, with
  -- whether the stream was closed.
  unfoldable pub stream : List (Option SessionInfo) → Cursor → List String × Bool
  unfolding poll
  stream [] c = ([], false)
  stream (o ∷ os) c =
      let p = poll o true c in
      let rest = stream os p.cursor in
      if p.again then (p.written ++ rest.0, rest.1) else (p.written, p.closed)
