-- ===== src/Deque/Contents.antt =====
-- The deque refines a plain list: the owner works at its end, the thieves at its front.
use forge_lock_free.Base.{
  ℕ, ◌+◌, ◌-◌, ◌≤◌, ◌<◌, ◌≡◌, refl, sym, none, some, List, [], ◌∷◌, ◌++◌, arith, between,
  between_empty, between_first, between_last, between-ext,
}
use forge_lock_free.Base.Trace.{Replays, Replays-append}
use forge_lock_free.Deque.Circular.{get, get-put_before, get-grow}
use forge_lock_free.Deque.{
  Event, pushed, popped, stolen, Deque, buffer, init, Step, push_grow, push_put, push_store,
  pop_many, pop_empty, race_win, race_lose, steal_win, Reach, start, later,
}
use forge_lock_free.Deque.Invariant.{Inv, limit, Reach-Inv, guard}

module _ {A : Type 0} where
  -- The entries from the top to the limit, read through the current buffer.
  pub contents : Deque A → List A
  contents d = between (get (buffer d)) d.top (limit d)

  -- What one call may do to the list.
  abbrev pub Allows : List A → Event A → List A → Type 0
  Allows l (pushed v) m = m ≡ l ++ v ∷ []
  Allows l (popped (some v)) m = l ≡ m ++ v ∷ []
  Allows l (popped none) m = (l ≡ []) × (m ≡ [])
  Allows l (stolen v) m = l ≡ v ∷ m

  contents-eq :
      (d e : Deque A)
      → e.top ≡ d.top
      → limit e ≡ limit d
      → ((k : ℕ) → d.top ≤ k → k < limit d → get (buffer e) k ≡ get (buffer d) k)
      → contents d ≡ contents e
  unfolding contents
  contents-eq d e t l h =
      rw (t, l) (sym (between-ext (get (buffer e)) (get (buffer d)) d.top (limit d) h))

  module _ {blank : A} {d : Deque A} (w : Inv d) where
    open w use {order, room, owner_ok, thief_ok}

    Step-Replays :
        {es : List (Event A)} {e : Deque A}
        → Step blank d es e
        → Replays Allows (contents d) es (contents e)
    unfolding contents
    Step-Replays {e} (push_grow v t h r) =
        contents-eq d e refl (ground arith)
          (λ k a b. ground (arith, owner_ok, get-grow (buffer d) blank t (d.bottom_succ - 1) k))
    Step-Replays {e} (push_put v h) =
        contents-eq d e refl (ground arith)
          (λ k a b. ground (arith, owner_ok, get-put_before (buffer d) (d.bottom_succ - 1) k v))
    Step-Replays (push_store v h) = (
      _,
      ground (arith, order, owner_ok, between_last (get (buffer d)) d.top (d.bottom_succ - 1)),
      refl,
    )
    Step-Replays (pop_many h r) =
        (_, ground (arith, between_last (get (buffer d)) d.top (d.bottom_succ - 1)), refl)
    Step-Replays (pop_empty h r) = (
      _,
      (
        ground (arith, order, between_empty (get (buffer d)) d.top d.bottom_succ),
        ground (arith, between_empty (get (buffer d)) d.top d.top),
      ),
      refl,
    )
    Step-Replays (race_win t v h r) = (
      _,
      ground (
        arith,
        owner_ok,
        between_first (get (buffer d)) t (t + 1),
        between_empty (get (buffer d)) (t + 1) (t + 1),
      ),
      refl,
    )
    Step-Replays (race_lose t v h r) = (
      _,
      (
        ground (arith, owner_ok, between_empty (get (buffer d)) d.top (t + 1)),
        ground (arith, owner_ok, between_empty (get (buffer d)) d.top (t + 1)),
      ),
      refl,
    )
    Step-Replays (steal_win i t v h r) =
        (_, ground (arith, thief_ok i, between_first (get (buffer d)) t (limit d)), refl)
    Step-Replays st = ground (arith, guard st, owner_ok)

  init-contents : (capacity : ℕ) (blank : A) → contents (init capacity blank) ≡ []
  unfolding init contents
  init-contents capacity blank = between_empty _ 0 0 (omega arith)

  -- Whatever the interleaving of the owner with any number of thieves, the calls that take effect are
  -- those of a list, in their order: `push` appends, `pop` removes the last entry, or finds the list
  -- empty, a successful `steal` removes the first, and each returns the entry that it removes. The
  -- entries left are those from the top to the limit in the current buffer, also after it has grown.
  pub deque_linearizable :
      {capacity : ℕ} {blank : A} {es : List (Event A)} {d : Deque A}
      → 0 < capacity
      → Reach capacity blank es d
      → Replays Allows [] es (contents d)
  deque_linearizable {capacity} {blank} h start = sym (init-contents capacity blank)
  deque_linearizable h (later {es} {fs} {d} {e} r st) =
      Replays-append Allows [] (contents d) (contents e) es fs (deque_linearizable h r)
        (Step-Replays (Reach-Inv h r) st)
