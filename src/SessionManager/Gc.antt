-- ===== src/SessionManager/Gc.antt =====
-- What `gc` keeps.
use native.Mathlib.Nat.{mod-lt}
use forge_lock_free.Base.{
  ℕ, zero, suc, leb, sym, ◌-◌, ◌%◌, ◌<◌, ◌≡◌, refl, ◌∙◌, ap, Bool, true, false, ◌||◌, ◌&&◌, Option,
  none, some, Option-cases, Bool-cases, inl, inr, List, [], ◌∷◌, ◌++◌, ◌==◌, if◌then◌else◌, arith,
  map,
}
use forge_lock_free.Session.{
  Session, SessionState, created, waiting_for_llm, executing_tools, waiting_for_human, completed,
  failed, cancelled, terminal,
}
use forge_lock_free.ConcurrentMap.{Stripes, lookup, find, erase, keys_from}
use forge_lock_free.ConcurrentMap.Laws.{find-erase}
use forge_lock_free.SessionManager.{
  SessionInfo, Manager, stripes, info, get_session, reapable, reap, gc, list_sessions,
}

abbrev mem : ℕ → List ℕ → Bool
mem j [] = false
mem j (k ∷ ks) = if k == j then true else mem j ks

mem-append : (j : ℕ) (ks ls : List ℕ) → mem j (ks ++ ls) ≡ mem j ks || mem j ls
mem-append j [] ls = refl
mem-append j (k ∷ ks) ls = ground (arith, mem-append j ks ls)

mem-lookup :
    {V : Type 0} (j : ℕ) (t : List (ℕ × V)) (v : V)
    → lookup j t ≡ some v
    → mem j (map (λ e. e.0) t) ≡ true
unfolding lookup
mem-lookup j [] v h = ground arith
mem-lookup j ((k, u) ∷ t) v h = ground (arith, mem-lookup j t v)

mem-keys_from :
    {V : Type 0} (j i n : ℕ) (m : Stripes V)
    → i < n
    → mem j (map (λ e. e.0) (m i)) ≡ true
    → mem j (keys_from n m) ≡ true
unfolding keys_from
mem-keys_from j i zero m h k = absurd (omega arith)
mem-keys_from j i (suc n) m h k =
    ground (arith, mem-append j (keys_from n m) (map (λ e. e.0) (m n)), mem-keys_from j i n m)

-- The states in which a session has come to its end.
abbrev pub finished : SessionState → Bool
finished created = false
finished waiting_for_llm = false
finished executing_tools = false
finished waiting_for_human = false
finished completed = true
finished failed = true
finished cancelled = true

pub terminal-finished : (s : SessionState) → terminal s ≡ finished s
terminal-finished created = refl
terminal-finished waiting_for_llm = refl
terminal-finished executing_tools = refl
terminal-finished waiting_for_human = refl
terminal-finished completed = refl
terminal-finished failed = refl
terminal-finished cancelled = refl

reapable-finished :
    (now max_age : ℕ) (s : Session)
    → reapable now max_age s ≡ (finished s.state && leb max_age (now - s.created_at))
unfolding reapable
reapable-finished now max_age s = rw (terminal-finished s.state) refl

abbrev read : (ℕ → Session) → Option ℕ → Option SessionInfo
read heap none = none
read heap (some p) = some (info (heap p))

-- What becomes of an entry that the loop of `gc` meets or not.
abbrev survivor : ℕ → ℕ → (ℕ → Session) → (met : Bool) → Option ℕ → Option ℕ
survivor now max_age heap met none = none
survivor now max_age heap met (some p) =
    if met && reapable now max_age (heap p) then none else some p

module _ (hash : ℕ → ℕ) where
  -- Every session is among the keys.
  mem-list_sessions :
      (m : Manager) (j p : ℕ)
      → find hash stripes j m.sessions ≡ some p
      → mem j (list_sessions m) ≡ true
  unfolding find list_sessions
  mem-list_sessions m j p h =
      let l : hash j % stripes < stripes = mod-lt (hash j) (omega arith) in
      mem-keys_from j (hash j % stripes) stripes m.sessions l
        (mem-lookup j (m.sessions (hash j % stripes)) p h)

  reap-heap :
      (now max_age : ℕ) (ks : List ℕ) (m : Manager) → (reap hash now max_age ks m).0.heap ≡ m.heap
  unfolding reap
  reap-heap now max_age [] m = refl
  reap-heap now max_age (k ∷ ks) m = elim (Option-cases (find hash stripes k m.sessions)) [
    | inl h ↦ rw (reap, h) (reap-heap now max_age ks m)
    | inr (p, h) ↦
        rw (reap, h)
          (elim (Bool-cases (reapable now max_age (m.heap p))) [
            | inl r ↦ rw r (
                reap-heap now max_age ks
                  (record m { sessions = (erase hash stripes k m.sessions).0 }))
            | inr r ↦ rw r (reap-heap now max_age ks m)
          ])
  ]

  find-reap :
      (now max_age : ℕ) (ks : List ℕ) (m : Manager) (j : ℕ)
      → find hash stripes j (reap hash now max_age ks m).0.sessions
        ≡ survivor now max_age m.heap (mem j ks) (find hash stripes j m.sessions)
  unfolding reap
  find-reap now max_age [] m j = elim (Option-cases (find hash stripes j m.sessions)) [
    | inl h ↦ rw h refl
    | inr (p, h) ↦ rw h refl
  ]
  find-reap now max_age (k ∷ ks) m j =
      let gone : Manager = record m { sessions = (erase hash stripes k m.sessions).0 } in
      elim (Option-cases (find hash stripes k m.sessions)) [
        | inl h ↦ rw (reap, h) (ground (arith, h, find-reap now max_age ks m j))
        | inr (p, h) ↦
            rw (reap, h)
              (elim (Bool-cases (reapable now max_age (m.heap p))) [
                | inl r ↦ rw r (
                    ground (
                      arith,
                      h,
                      r,
                      find-reap now max_age ks gone j,
                      (find-erase hash stripes k j m.sessions).0,
                    ))
                | inr r ↦ rw r (ground (arith, h, r, find-reap now max_age ks m j))
              ])
      ]

  get_session-at :
      (j : ℕ) (m : Manager) (o : Option ℕ) (heap : ℕ → Session)
      → find hash stripes j m.sessions ≡ o
      → m.heap ≡ heap
      → get_session hash j m ≡ read heap o
  unfolding get_session
  get_session-at j m none heap e h = rw (get_session, e) refl
  get_session-at j m (some p) heap e h = rw (get_session, e) (ap (λ f. some (info (f p))) h)

  -- The keys that `gc` collects leave no session out.
  kept :
      (now max_age : ℕ) (m : Manager) (j : ℕ) (o : Option ℕ)
      → find hash stripes j m.sessions ≡ o
      → read m.heap (survivor now max_age m.heap (mem j (list_sessions m)) o) ≡ elim o [
        | none ↦ none
        | some p ↦
            if finished (m.heap p).state && leb max_age (now - (m.heap p).created_at)
            then none
            else get_session hash j m
      ]
  kept now max_age m j none e = refl
  kept now max_age m j (some p) e =
      rw
        (
          mem-list_sessions m j p e,
          get_session-at j m (some p) m.heap e refl,
          sym (reapable-finished now max_age (m.heap p)),
        )
        (elim (Bool-cases (reapable now max_age (m.heap p))) [
          | inl r ↦ rw r refl
          | inr r ↦ rw r refl
        ])

  -- After `gc`, while no other operation runs, a session can be read exactly if it could be before and
  -- was not both in a terminal state and at least `max_age` old; and it reads as before.
  pub get_session-gc :
      (now max_age : ℕ) (m : Manager) (j : ℕ)
      → get_session hash j (gc hash now max_age m).0 ≡ elim (find hash stripes j m.sessions) [
        | none ↦ none
        | some p ↦
            if finished (m.heap p).state && leb max_age (now - (m.heap p).created_at)
            then none
            else get_session hash j m
      ]
  unfolding gc
  get_session-gc now max_age m j =
      get_session-at j (reap hash now max_age (list_sessions m) m).0
        (survivor now max_age m.heap (mem j (list_sessions m)) (find hash stripes j m.sessions))
        m.heap (find-reap now max_age (list_sessions m) m j)
        (reap-heap now max_age (list_sessions m) m)
      ∙ kept now max_age m j (find hash stripes j m.sessions) refl
