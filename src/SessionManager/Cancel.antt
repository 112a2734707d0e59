-- ===== src/SessionManager/Cancel.antt =====
-- What `cancel_session` changes.
use forge_lock_free.Base.{
  ℕ, ◌≡◌, true, Option-cases, inl, inr, none, some, ◌==◌, if◌then◌else◌, update, arith,
}
use forge_lock_free.Session.{Session}
use forge_lock_free.ConcurrentMap.{find, is_some}
use forge_lock_free.SessionManager.{Manager, stripes, info, get_session, cancel_session}
use forge_lock_free.SessionManager.Create.{Own}

info-update :
    (heap : ℕ → Session) (p q : ℕ)
    → info (update heap p (record (heap p) { cancel_requested = true }) q) ≡ info (heap q)
unfolding info
info-update heap p q = ground arith

module _ (hash : ℕ → ℕ) where
  absent :
      (id j : ℕ) (m : Manager)
      → find hash stripes id m.sessions ≡ none
      → get_session hash j (cancel_session hash id m).0 ≡ get_session hash j m
  unfolding cancel_session get_session
  absent id j m h = elim (Option-cases (find hash stripes j m.sessions)) [
    | inl k ↦ ground (arith, h, k)
    | inr (q, k) ↦ ground (arith, h, k)
  ]

  kept :
      (id j p : ℕ) (m : Manager)
      → find hash stripes id m.sessions ≡ some p
      → get_session hash j (cancel_session hash id m).0 ≡ get_session hash j m
  unfolding cancel_session get_session
  kept id j p m h = elim (Option-cases (find hash stripes j m.sessions)) [
    | inl k ↦ ground (arith, h, k)
    | inr (q, k) ↦ ground (arith, h, k, info-update m.heap p q)
  ]

  -- A cancellation succeeds exactly for the ids that can be read, and then sets the flag of that
  -- session; it sets no other session's flag, and changes nothing of what clients read.
  pub cancel-get :
      (id j : ℕ) (m : Manager)
      → Own hash m
      → (get_session hash j (cancel_session hash id m).0 ≡ get_session hash j m)
        × ((cancel_session hash id m).1 ≡ is_some (get_session hash id m))
        × (((cancel_session hash id m).0.heap j).cancel_requested ≡ (
            if id == j
            then (if (cancel_session hash id m).1 then true else (m.heap j).cancel_requested)
            else (m.heap j).cancel_requested))
  unfolding cancel_session get_session
  cancel-get id j m own = elim (Option-cases (find hash stripes id m.sessions)) [
    | inl h ↦ (absent id j m h, ground (arith, h), ground (arith, h))
    | inr (p, h) ↦
        let e : p ≡ id = own id p h in (kept id j p m h, ground (arith, h), ground (arith, h, e))
  ]
