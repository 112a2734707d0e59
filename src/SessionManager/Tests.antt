-- ===== src/SessionManager/Tests.antt =====
-- Runs of the session manager.
use Prim.Native.String.{String}
use forge_lock_free.Base.{
  ℕ, ◌≡◌, refl, true, false, none, some, ◌⊎◌, inr, [], ◌∷◌, if◌then◌else◌, ◌&&◌, ◌-◌, leb, arith,
}
use forge_lock_free.Session.{Session, make}
use forge_lock_free.WorkflowFactory.{Factory, has, constructor}
use forge_lock_free.ConcurrentMap.{
  remove, erase, keys_from, find, lookup, insert_if_under, insert, assign, size_from, contains,
}
use forge_lock_free.SessionManager.{
  CreateSessionRequest, Manager, opened, dispatch, list_sessions, reap, init, stripes,
  create_session, get_session, active_count, gc, reapable,
}
use forge_lock_free.SessionManager.Create.{Own, create-bound}
use forge_lock_free.React.{World, run, loop, round}
use forge_lock_free.SessionManager.Task.{run_task, settle}
use forge_lock_free.SessionManager.Lifecycle.{Settled, task-collected}
use forge_lock_free.SessionManager.Gc.{finished, get_session-gc}

abbrev same : ℕ → ℕ
same n = n

abbrev workflows : Factory ℕ
workflows = ("react", 0) ∷ []

abbrev request : CreateSessionRequest
request = record {
  prompt = "hi";
  system_message = "";
  workflow = "react";
  tools = [];
  config = record { max_iterations = 15; max_history = 100; timeout = 300 };
}

abbrev blank : ℕ → Session
blank i = make i request.config 0

abbrev creation : ℕ → Manager → Manager × (ℕ ⊎ String)
creation now m = create_session same workflows (λ i. false) (λ n. "1") now request m

abbrev one : Manager
one = (creation 5 (init 1 blank)).0

nobody-Own : Own same (init 1 blank)
unfolding find lookup
nobody-Own j p h = ground arith

full : (active_count one ≡ 1) × ((creation 6 one).1 ≡ inr "At capacity (1 sessions)")
unfolding create_session insert_if_under insert size_from assign lookup find active_count contains
    has constructor
full = (refl, refl)

one-Own : Own same one
unfolding active_count size_from
one-Own =
    (create-bound same workflows (λ i. false) (λ n. "1") 5 request (init 1 blank) nobody-Own
      (omega arith)).1

get_session-gc_example :
    get_session same 1 (gc same 9 2 one).0 ≡ elim (find same stripes 1 one.sessions) [
      | none ↦ none
      | some p ↦
          if finished (one.heap p).state && leb 2 (9 - (one.heap p).created_at)
          then none
          else get_session same 1 one
    ]
get_session-gc_example = get_session-gc same 9 2 one 1

-- Surroundings in which the client cancels, and ones in which the LLM throws.
abbrev cancelling : World
cancelling = record {
  cancel = λ n. true;
  now = λ n. 6;
  complete = λ n ms. none;
  batch = λ n cs. [];
  decimal = λ n. "";
}

abbrev throwing : World
throwing = record cancelling { cancel = λ n. false }

cancelled_collected :
    elim (run_task (run cancelling) 1 one) [
      | none ↦ false
      | some m ↦ leb (active_count (gc same 9 2 m).0) 0
    ]
    ≡ true
unfolding run_task settle dispatch run loop round reapable gc list_sessions reap create_session
    insert_if_under insert assign find lookup remove erase keys_from size_from active_count has
    constructor opened make
cancelled_collected = refl

task-collected_example :
    (n : Manager) × (t : Session) × (run_task (run throwing) 1 one ≡ some n)
    × Settled same throwing 9 2 1 n t
unfolding create_session insert_if_under insert size_from has constructor
task-collected_example =
    task-collected same 9 2 1 workflows (λ i. false) (λ n. "1") 5 request (init 1 blank) throwing
      refl (omega arith) (omega arith)
