-- ===== src/SessionManager/Task.antt =====
-- The task that `create_session` of src/session/session_manager.cpp gives to the pool.
use forge_lock_free.Base.{ℕ, Option, none, some, List, [], update}
use forge_lock_free.Session.{Session}
use forge_lock_free.React.{Flow, stop, proceed, raise}
use forge_lock_free.SessionManager.{Manager, dispatch}

-- The session as the workflow leaves it.
unfoldable pub settle : ℕ → Session → Manager → Manager
settle p s m = record m { heap = update m.heap p s }

-- The body of the task for the session at `p`, with what its workflow's `run` does; `none` stands for a
-- run out of fuel. An exception of the run is caught by the pool's future.
unfoldable pub run_task : (Session → Option Flow) → ℕ → Manager → Option Manager
unfolding settle dispatch
run_task workflow p m = elim (workflow ((dispatch p m).heap p)) [
  | none ↦ none
  | some (stop s r) ↦ some (settle p s (dispatch p m))
  | some (raise s r) ↦ some (settle p s (dispatch p m))
  | some (proceed s r) ↦ none
]

-- The destructor: it takes the futures, and waits for each of those that it has taken.
unfoldable pub destroy : Manager → Manager × List ℕ
destroy m = (record m { inflight = [] }, m.inflight)
