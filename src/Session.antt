-- ===== src/Session.antt =====
-- `SessionState`, `SessionConfig` and `Session` of src/session/session.h. Time is in seconds; the
-- counter of steps is a uint32_t.
use Prim.Native.String.{String}
use forge_lock_free.Base.{ℕ, ◌+◌, ◌%◌, ◌^◌, Bool, true, false, leb, ltb}
use forge_lock_free.Conversation.{Conversation, new}

pub data SessionState : Type 0 where
  created waiting_for_llm executing_tools waiting_for_human completed failed cancelled :
      SessionState

unfoldable pub session_state_name : SessionState → String
session_state_name created = "created"
session_state_name waiting_for_llm = "waiting_for_llm"
session_state_name executing_tools = "executing_tools"
session_state_name waiting_for_human = "waiting_for_human"
session_state_name completed = "completed"
session_state_name failed = "failed"
session_state_name cancelled = "cancelled"

pub record SessionConfig : Type 0 where
  pub max_iterations : ℕ
  pub max_history : ℕ
  pub timeout : ℕ

pub record Session : Type 0 where
  pub id : ℕ
  pub state : SessionState
  pub history : Conversation
  pub config : SessionConfig
  pub step_count : ℕ
  pub deadline : ℕ
  pub created_at : ℕ
  pub initial_prompt : String
  pub final_answer : String
  pub error : String
  pub cancel_requested : Bool

-- The constructor, at time `now`.
unfoldable pub make : ℕ → SessionConfig → ℕ → Session
make id cfg now = record {
  id = id;
  state = created;
  history = new cfg.max_history;
  config = cfg;
  step_count = 0;
  deadline = now + cfg.timeout;
  created_at = now;
  initial_prompt = "";
  final_answer = "";
  error = "";
  cancel_requested = false;
}

abbrev pub terminal : SessionState → Bool
terminal completed = true
terminal failed = true
terminal cancelled = true
terminal _ = false

abbrev pub is_terminal : Session → Bool
is_terminal s = terminal s.state

abbrev pub is_timed_out : Session → ℕ → Bool
is_timed_out s now = ltb s.deadline now

abbrev pub exceeded_max_iterations : Session → Bool
exceeded_max_iterations s = leb s.config.max_iterations s.step_count

-- `fetch_add(1)` on the counter of steps.
abbrev pub count_step : Session → Session
count_step s = record s { step_count = (s.step_count + 1) % 2 ^ 32 }
