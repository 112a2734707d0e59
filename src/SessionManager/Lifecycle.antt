-- ===== src/SessionManager/Lifecycle.antt =====
-- A session from its creation over its workflow to its collection.
use Prim.Native.String.{String}
use forge_lock_free.Base.{
  ℕ, ◌-◌, ◌^◌, ◌≤◌, ◌<◌, ◌≡◌, ◌⊎◌, ◌&&◌, refl, sym, ap, ◌∙◌, inl, inr, Bool, true, false, not,
  Option, none, some, Bool-cases, if◌then◌else◌, leb, arith,
}
use forge_lock_free.Chat.{empty}
use forge_lock_free.Session.{Session, waiting_for_llm, completed, make, is_terminal}
use forge_lock_free.WorkflowFactory.{Factory, has}
use forge_lock_free.ConcurrentMap.{find, insert_if_under, size_from}
use forge_lock_free.ConcurrentMap.Laws.{find-insert}
use forge_lock_free.React.{World, WorkflowResult, Flow, stop, proceed, raise, run}
use forge_lock_free.React.Loop.{Running, Ends, run-Ends, push-Fits}
use forge_lock_free.React.Keeps.{Kept, run-Kept}
use forge_lock_free.SessionManager.{
  CreateSessionRequest, Manager, stripes, opened, info, dispatch, create_session, get_session, gc,
}
use forge_lock_free.SessionManager.Gc.{finished, get_session-gc}
use forge_lock_free.SessionManager.Task.{settle, run_task}

-- The session of a request once its task has begun.
abbrev begun : CreateSessionRequest → ℕ → ℕ → Session
begun req id now = record (opened req id now) { state = waiting_for_llm }

begun-Running :
    (req : CreateSessionRequest) (id now : ℕ)
    → req.config.max_iterations < 2 ^ 32
    → Running (begun req id now)
unfolding opened make
begun-Running req id now h = record { open_answer = refl; fits = push-Fits _ _; small = h }

module _ (hash : ℕ → ℕ) where
  -- What a creation that is accepted has put into the map and the heap.
  created :
      {W : Type 0} (factory : Factory W) (ready : ℕ → Bool) (decimal : ℕ → String) (now : ℕ)
      (req : CreateSessionRequest) (m : Manager) (id : ℕ)
      → (create_session hash factory ready decimal now req m).1 ≡ inl id
      → ((create_session hash factory ready decimal now req m).0.heap id ≡ opened req id now)
        × (find hash stripes id (create_session hash factory ready decimal now req m).0.sessions
            ≡ some id)
  unfolding create_session insert_if_under
  created factory ready decimal now req m id = elim (Bool-cases (has req.workflow factory)) [
    | inr h ↦ rw h (λ e. absurd (ground (arith, e)))
    | inl h ↦ rw h (elim (Bool-cases (leb m.max_sessions (size_from stripes m.sessions))) [
      | inl l ↦ rw l (λ e. absurd (ground (arith, e)))
      | inr l ↦ rw l (λ e.
          let i : m.next_id ≡ id = ground (arith, e) in
          rw (sym i) (
            ground arith,
            ground (arith, (find-insert hash stripes m.next_id m.next_id m.next_id m.sessions).0),
          ))
    ])
  ]

  run_task-stop :
      (workflow : Session → Option Flow) (p : ℕ) (m : Manager) (t : Session) (q : WorkflowResult)
      → workflow ((dispatch p m).heap p) ≡ some (stop t q)
      → run_task workflow p m ≡ some (settle p t (dispatch p m))
  unfolding run_task
  run_task-stop workflow p m t q e = rw (run_task, e) refl

  run_task-raise :
      (workflow : Session → Option Flow) (p : ℕ) (m : Manager) (t : Session) (q : WorkflowResult)
      → workflow ((dispatch p m).heap p) ≡ some (raise t q)
      → run_task workflow p m ≡ some (settle p t (dispatch p m))
  unfolding run_task
  run_task-raise workflow p m t q e = rw (run_task, e) refl

  settle-find :
      (p : ℕ) (t : Session) (m : Manager) (id : ℕ)
      → find hash stripes id (settle p t (dispatch p m)).sessions ≡ find hash stripes id m.sessions
  unfolding settle dispatch
  settle-find p t m id = refl

  settle-heap : (p : ℕ) (t : Session) (m : Manager) → (settle p t (dispatch p m)).heap p ≡ t
  unfolding settle dispatch
  settle-heap p t m = ground arith

  dispatch-heap :
      (p : ℕ) (m : Manager) (s : Session)
      → m.heap p ≡ s
      → (dispatch p m).heap p ≡ record s { state = waiting_for_llm }
  unfolding dispatch
  dispatch-heap p m s h = ground (arith, h)

  -- The ends of a session at `id` in a manager: it can be read, and it is terminal, with an answer exactly if
  -- it is completed, and `gc` collects it, or
  -- a call of the LLM for its history threw, it waits for the LLM, and `gc` leaves it.
  abbrev pub Settled : World → ℕ → ℕ → ℕ → Manager → Session → Type 0
  Settled w later max_age id m s =
      (get_session hash id m ≡ some (info s))
      × (((is_terminal s ≡ true)
            × (not (empty s.final_answer) ≡ elim s.state [ completed ↦ true | _ ↦ false ])
            × (get_session hash id (gc hash later max_age m).0 ≡ none))
          ⊎ ((n : ℕ) × (w.complete n s.history.messages ≡ none)
              × (s.state ≡ waiting_for_llm)
              × (get_session hash id (gc hash later max_age m).0 ≡ some (info s))))

  module _ (later max_age id : ℕ) where
    readable :
        (m : Manager) (s : Session)
        → find hash stripes id m.sessions ≡ some id
        → m.heap id ≡ s
        → get_session hash id m ≡ some (info s)
    unfolding get_session
    readable m s e h = rw (get_session, e) (ap (λ x. some (info x)) h)

    after_gc :
        (m : Manager) (s : Session)
        → find hash stripes id m.sessions ≡ some id
        → m.heap id ≡ s
        → get_session hash id (gc hash later max_age m).0
          ≡ (if finished s.state && leb max_age (later - s.created_at) then none else some (info s))
    after_gc m s e h =
        let g = get_session-gc hash later max_age m id in
        let a = readable m s e h in rw (g, e, h, a) refl

    terminal-Settled :
        (w : World) (m : Manager) (s : Session)
        → find hash stripes id m.sessions ≡ some id
        → m.heap id ≡ s
        → is_terminal s ≡ true
        → not (empty s.final_answer) ≡ elim s.state [ completed ↦ true | _ ↦ false ]
        → max_age ≤ later - s.created_at
        → Settled w later max_age id m s
    terminal-Settled w m s e h t c a =
        (readable m s e h, inl (t, c, after_gc m s e h ∙ ground (arith, t, a)))

    waiting-Settled :
        (w : World) (n : ℕ) (m : Manager) (s : Session)
        → find hash stripes id m.sessions ≡ some id
        → m.heap id ≡ s
        → s.state ≡ waiting_for_llm
        → w.complete n s.history.messages ≡ none
        → Settled w later max_age id m s
    waiting-Settled w n m s e h t c =
        (readable m s e h, inr (n, c, t, after_gc m s e h ∙ ground (arith, t)))

    -- The task, for what the run comes to.
    task-Settled :
        (w : World) (m : Manager) (s : Session) (o : Option Flow)
        → find hash stripes id m.sessions ≡ some id
        → (dispatch id m).heap id ≡ s
        → run w s ≡ o
        → Ends w s.config.max_iterations o
        → Kept s o
        → max_age ≤ later - s.created_at
        → (n : Manager) × (t : Session) × (run_task (run w) id m ≡ some n)
          × Settled w later max_age id n t
    task-Settled w m s none e h r x k a = absurd x
    task-Settled w m s (some (proceed t q)) e h r x k a = absurd x
    task-Settled w m s (some (stop t q)) e h r x k a = (
      settle id t (dispatch id m),
      t,
      run_task-stop (run w) id m t q (ap (run w) h ∙ r),
      terminal-Settled w (settle id t (dispatch id m)) t (settle-find id t m id ∙ e)
          (settle-heap id t m) x.0 (ap (λ y. not (empty y)) (sym x.3) ∙ sym x.2 ∙ x.1)
          (omega (arith, k.1, a)),
    )
    task-Settled w m s (some (raise t q)) e h r x k a = (
      settle id t (dispatch id m),
      t,
      run_task-raise (run w) id m t q (ap (run w) h ∙ r),
      waiting-Settled w x.2 (settle id t (dispatch id m)) t (settle-find id t m id ∙ e)
          (settle-heap id t m) x.0 x.3,
    )

    -- A session that is created, and whose task runs a ReAct workflow to its end, ends in one of two ways,
    -- whatever the LLM, the tools, the clients and the clock do. It is in a terminal state, with an answer
    -- exactly if that is COMPLETED, which clients read, and `gc` collects it once it is `max_age` old; or a call of the LLM for the history that it is
    -- left with threw, it waits for the LLM, and `gc` leaves it at any age. The limit of iterations of the request is below 2^32.
    pub task-collected :
        {W : Type 0} (factory : Factory W) (ready : ℕ → Bool) (decimal : ℕ → String) (now : ℕ)
        (req : CreateSessionRequest) (m : Manager) (w : World)
        → (create_session hash factory ready decimal now req m).1 ≡ inl id
        → req.config.max_iterations < 2 ^ 32
        → max_age ≤ later - now
        → (n : Manager) × (t : Session) × (run_task
              (run w)
              id
              (create_session hash factory ready decimal now req m).0
            ≡ some n)
          × Settled w later max_age id n t
    unfolding opened make
    task-collected factory ready decimal now req m w e l a =
        let (h, f) = created factory ready decimal now req m id e in
        let s : Session = begun req id now in
        task-Settled w (create_session hash factory ready decimal now req m).0 s (run w s) f
          (dispatch-heap id (create_session hash factory ready decimal now req m).0
            (opened req id now) h)
          refl (run-Ends w s (begun-Running req id now l) refl refl) (run-Kept w s) a
