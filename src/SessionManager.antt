-- ===== src/SessionManager.antt =====
-- `SessionManager` of src/session/session_manager.cpp over the striped map. Sessions are shared: the
-- map and the workflow's task hold the same `Session`, so they stand in a heap, at their ids. Each
-- operation runs here with no other between its accesses.
pub mod Create
pub mod Gc
pub mod Cancel
pub mod Task
pub mod Lifecycle
mod Tests
use Prim.Native.String.{String, ◌++◌ as ◌<>◌}
use forge_lock_free.Base.{
  ℕ, zero, suc, ◌+◌, ◌-◌, ◌%◌, ◌^◌, ◌≡◌, ◌⊎◌, inl, inr, Bool, true, false, not, ◌&&◌, Option, none,
  some, List, [], ◌∷◌, ◌++◌, leb, ◌==◌, if◌then◌else◌, update,
}
use forge_lock_free.Chat.{message, empty}
use forge_lock_free.Conversation.{Conversation, new, push}
use forge_lock_free.Session.{
  Session, SessionState, SessionConfig, created, waiting_for_llm, make, is_terminal,
}
use forge_lock_free.WorkflowFactory.{Factory, has}
use forge_lock_free.ConcurrentMap.{
  Stripes, find, insert_if_under, mutate, erase, keys_from, size_from,
}

pub record CreateSessionRequest : Type 0 where
  pub prompt : String
  pub system_message : String
  pub workflow : String
  pub tools : List String
  pub config : SessionConfig

pub record SessionInfo : Type 0 where
  pub id : ℕ
  pub state : SessionState
  pub step_count : ℕ
  pub final_answer : String
  pub error : String

-- `submitted` has the ids of the sessions whose tasks the pool has and has not begun; `inflight` those
-- whose futures the manager keeps.
pub record Manager : Type 0 where
  pub heap : ℕ → Session
  pub sessions : Stripes ℕ
  pub next_id : ℕ
  pub max_sessions : ℕ
  pub submitted : List ℕ
  pub inflight : List ℕ

-- `NumStripes` where it is not given.
abbrev pub stripes : ℕ
stripes = 64

abbrev pub init : ℕ → (ℕ → Session) → Manager
init max heap = record {
  heap = heap;
  sessions = λ i. [];
  next_id = 1;
  max_sessions = max;
  submitted = [];
  inflight = [];
}

-- The session of a request, as it enters the map.
unfoldable pub opened : CreateSessionRequest → ℕ → ℕ → Session
opened req id now =
    let s : Session = make id req.config now in
    let c : Conversation =
      if empty req.system_message
      then s.history
      else push s.history (message "system" req.system_message) in
    record s { initial_prompt = req.prompt; history = push c (message "user" req.prompt) }

-- The erase-remove of the futures that are ready.
unfoldable pub unready : (ℕ → Bool) → List ℕ → List ℕ
unready ready [] = []
unready ready (i ∷ is) = if ready i then unready ready is else i ∷ unready ready is

unfoldable pub info : Session → SessionInfo
info s = record {
  id = s.id;
  state = s.state;
  step_count = s.step_count;
  final_answer = s.final_answer;
  error = s.error;
}

unfoldable pub without : ℕ → List ℕ → List ℕ
without p [] = []
without p (i ∷ is) = if p == i then without p is else i ∷ without p is

-- The pool begins the task of the session at `p`, with its first store.
unfoldable pub dispatch : ℕ → Manager → Manager
unfolding without
dispatch p m = record m {
  heap = update m.heap p (record (m.heap p) { state = waiting_for_llm });
  submitted = without p m.submitted;
}

-- The test of `gc` on one session.
unfoldable pub reapable : ℕ → ℕ → Session → Bool
reapable now max_age s = is_terminal s && leb max_age (now - s.created_at)

module _ (hash : ℕ → ℕ) where
  unfoldable pub create_session :
      {W : Type 0}
      → Factory W
      → (ready : ℕ → Bool) → (decimal : ℕ → String) → (now : ℕ) → CreateSessionRequest
      → Manager
      → Manager × (ℕ ⊎ String)
  create_session factory ready decimal now req m =
      let id : ℕ = m.next_id in
      let r : Stripes ℕ × Bool = insert_if_under hash stripes id id m.max_sessions m.sessions in
      let counted : Manager = record m { next_id = (id + 1) % 2 ^ 64 } in
      if not (has req.workflow factory)
      then (m, inr ("Unknown workflow: " <> req.workflow))
      else if r.1
      then (
        record counted {
          heap = update m.heap id (opened req id now);
          sessions = r.0;
          submitted = m.submitted ++ id ∷ [];
          inflight = unready ready m.inflight ++ id ∷ [];
        },
        inl id,
      )
      else (counted, inr ("At capacity (" <> decimal m.max_sessions <> " sessions)"))

  unfoldable pub get_session : ℕ → Manager → Option SessionInfo
  get_session id m = elim (find hash stripes id m.sessions) [
    | none ↦ none
    | some p ↦ some (info (m.heap p))
  ]

  unfoldable pub cancel_session : ℕ → Manager → Manager × Bool
  cancel_session id m = elim (find hash stripes id m.sessions) [
    | none ↦ (m, false)
    | some p ↦
        (record m { heap = update m.heap p (record (m.heap p) { cancel_requested = true }) }, true)
  ]

  -- The loop of `gc` over the keys that it collected, with the number of sessions that it reaps.
  unfoldable pub reap : ℕ → ℕ → List ℕ → Manager → Manager × ℕ
  reap now max_age [] m = (m, 0)
  reap now max_age (id ∷ ids) m =
      let gone =
        reap now max_age ids (record m { sessions = (erase hash stripes id m.sessions).0 }) in
      let kept = reap now max_age ids m in
      elim (find hash stripes id m.sessions) [
        | none ↦ kept
        | some p ↦ if reapable now max_age (m.heap p) then (gone.0, gone.1 + 1) else kept
      ]

unfoldable pub list_sessions : Manager → List ℕ
list_sessions m = keys_from stripes m.sessions

unfoldable pub active_count : Manager → ℕ
active_count m = size_from stripes m.sessions

unfoldable pub gc : (hash : ℕ → ℕ) → ℕ → ℕ → Manager → Manager × ℕ
gc hash now max_age m = reap hash now max_age (list_sessions m) m
