-- ===== src/SessionManager/Create.antt =====
-- The creation of sessions: who gets one, and what it changes.
use Prim.Native.String.{String}
use forge_lock_free.Base.{
  ℕ, ◌≤◌, ◌≡◌, refl, sym, inl, inr, Bool, true, false, ◌&&◌, Option, none, some, Option-cases,
  Bool-cases, ◌==◌, if◌then◌else◌, update, arith, ltb, leb,
}
use forge_lock_free.Session.{Session, created, waiting_for_llm, make}
use forge_lock_free.WorkflowFactory.{Factory, has}
use forge_lock_free.ConcurrentMap.{find, insert_if_under, size_from}
use forge_lock_free.ConcurrentMap.Laws.{find-insert, size-insert}
use forge_lock_free.SessionManager.{
  CreateSessionRequest, SessionInfo, Manager, stripes, opened, info, create_session, get_session,
  active_count, dispatch,
}

-- The map has each session under its own id.
abbrev pub Own : (ℕ → ℕ) → Manager → Type 0
Own hash m = (j p : ℕ) → find hash stripes j m.sessions ≡ some p → p ≡ j

-- What a client reads of a session before its workflow starts.
abbrev pub untouched : ℕ → SessionInfo
untouched id = record { id = id; state = created; step_count = 0; final_answer = ""; error = "" }

info-opened : (req : CreateSessionRequest) (id now : ℕ) → info (opened req id now) ≡ untouched id
unfolding info opened make
info-opened req id now = refl

-- A reader of the map after an insertion.
read-insert :
    (o : Option ℕ) (heap : ℕ → Session) (s : Session) (id j : ℕ)
    → ((p : ℕ) → o ≡ some p → p ≡ j)
    → (elim (if id == j then some id else o) [
      | none ↦ none
      | some p ↦ some (info (update heap id s p))
    ])
      ≡ (if id == j then some (info s) else elim o [ none ↦ none | some p ↦ some (info (heap p)) ])
read-insert none heap s id j own = ground arith
read-insert (some p) heap s id j own = let e : p ≡ j = own p refl in ground arith

module _ (hash : ℕ → ℕ) where
  -- A request is accepted exactly when its workflow is known and there are fewer sessions than the
  -- bound. If it is, the new session can be read at once under the id that is returned; whether it is
  -- or not, what can be read under every other id is as before.
  pub create-get :
      {W : Type 0} (factory : Factory W) (ready : ℕ → Bool) (decimal : ℕ → String) (now : ℕ)
      (req : CreateSessionRequest) (m : Manager) (j : ℕ)
      → Own hash m
      → (elim (create_session hash factory ready decimal now req m).1 [
        | inl id ↦ true
        | inr e ↦ false
      ]
          ≡ has req.workflow factory && ltb (active_count m) m.max_sessions)
        × (get_session hash j (create_session hash factory ready decimal now req m).0
            ≡ elim (create_session hash factory ready decimal now req m).1 [
              | inl id ↦ if id == j then some (untouched id) else get_session hash j m
              | inr e ↦ get_session hash j m
            ])
  unfolding create_session get_session active_count insert_if_under
  create-get factory ready decimal now req m j own = elim (Bool-cases (has req.workflow factory)) [
    | inr h ↦ rw h (refl, refl)
    | inl h ↦ rw h (elim (Bool-cases (leb m.max_sessions (size_from stripes m.sessions))) [
      | inl l ↦ rw l (ground (arith, l), refl)
      | inr l ↦ rw l (
        ground (arith, l),
        rw (get_session, (find-insert hash stripes m.next_id j m.next_id m.sessions).0)
            (rw (sym (info-opened req m.next_id now)) (
              read-insert (find hash stripes j m.sessions) m.heap (opened req m.next_id now)
                m.next_id j (own j))),
      )
    ])
  ]

  pub create-Own :
      {W : Type 0} (factory : Factory W) (ready : ℕ → Bool) (decimal : ℕ → String) (now : ℕ)
      (req : CreateSessionRequest) (m : Manager)
      → Own hash m
      → Own hash (create_session hash factory ready decimal now req m).0
  unfolding create_session insert_if_under
  create-Own factory ready decimal now req m own = elim (Bool-cases (has req.workflow factory)) [
    | inr h ↦ rw h own
    | inl h ↦ rw h (elim (Bool-cases (leb m.max_sessions (size_from stripes m.sessions))) [
      | inl l ↦ rw l own
      | inr l ↦ rw l λ j p q.
          ground (arith, q, own j p, find-insert hash stripes m.next_id j m.next_id m.sessions)
    ])
  ]

  create-count :
      {W : Type 0} (factory : Factory W) (ready : ℕ → Bool) (decimal : ℕ → String) (now : ℕ)
      (req : CreateSessionRequest) (m : Manager)
      → active_count m ≤ m.max_sessions
      → active_count (create_session hash factory ready decimal now req m).0 ≤ m.max_sessions
  unfolding create_session active_count insert_if_under
  create-count factory ready decimal now req m b = elim (Bool-cases (has req.workflow factory)) [
    | inr h ↦ rw h b
    | inl h ↦ rw h (elim (Bool-cases (leb m.max_sessions (size_from stripes m.sessions))) [
      | inl l ↦ rw l b
      | inr l ↦ rw l (ground (arith, l, size-insert hash stripes m.next_id m.next_id m.sessions))
    ])
  ]

  -- What a client reads once the pool has begun the task of `id`.
  abbrev pub begun : ℕ → ℕ → Option SessionInfo → Option SessionInfo
  begun id j none = none
  begun id j (some i) = if id == j then some (record i { state = waiting_for_llm }) else some i

  pub get_session-dispatch :
      (id j : ℕ) (m : Manager)
      → Own hash m
      → get_session hash j (dispatch id m) ≡ begun id j (get_session hash j m)
  unfolding get_session dispatch info
  get_session-dispatch id j m own = elim (Option-cases (find hash stripes j m.sessions)) [
    | inl e ↦ rw (get_session, e) refl
    | inr (p, e) ↦
        let q : p ≡ j = own j p e in
        rw (get_session, e)
          (elim (Bool-cases (id == j)) [
            | inl h ↦ ground (arith, h, q)
            | inr h ↦ ground (arith, h, q)
          ])
  ]

  -- A creation keeps the number of sessions within the bound, and keeps each session under its own id.
  pub create-bound :
      {W : Type 0} (factory : Factory W) (ready : ℕ → Bool) (decimal : ℕ → String) (now : ℕ)
      (req : CreateSessionRequest) (m : Manager)
      → Own hash m
      → active_count m ≤ m.max_sessions
      → (active_count (create_session hash factory ready decimal now req m).0 ≤ m.max_sessions)
        × Own hash (create_session hash factory ready decimal now req m).0
  create-bound factory ready decimal now req m own b = (
    create-count factory ready decimal now req m b,
    create-Own factory ready decimal now req m own,
  )
