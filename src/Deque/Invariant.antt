-- ===== src/Deque/Invariant.antt =====
-- What holds of the indices, the buffers and every thief's locals in each reachable state.
use forge_lock_free.Base.{ℕ, ◌+◌, ◌-◌, ◌≤◌, ◌<◌, ◌≡◌, List, arith, ◌⊎◌, ◌≢◌}
use forge_lock_free.Deque.Circular.{
  Buffer, get, fresh, cap-put, cap-grow, get-put_self, get-put_before, get-grow,
}
use forge_lock_free.Deque.{
  Owner, idle, pushing, putting, storing, popping, racing, restoring, Thief, outside, got_top,
  in_range, got_buffer, got_value, Event, Deque, buffer, init, Step, push_load, push_room,
  push_grow, push_put, push_store, pop_lower, pop_many, pop_last, pop_empty, race_win, race_lose,
  restore, steal_top, steal_range, steal_none, steal_buffer, steal_value, steal_win, steal_lose,
  Reach, start, later,
}

module _ {A : Type 0} where
  -- One past the last entry: `bottom_` as it was before a `pop` that has not taken effect.
  abbrev pub limit_of : ℕ → Owner A → ℕ
  limit_of b popping = b
  limit_of b (racing t v) = t + 1
  limit_of b (restoring e) = e
  limit_of b _ = b - 1

  abbrev pub limit : Deque A → ℕ
  limit d = limit_of d.bottom_succ d.owner

  -- What the owner's locals say, by `top_`, `bottom_ + 1` and the current buffer.
  abbrev pub OwnerOk : ℕ → ℕ → Buffer A → Owner A → Type 0
  OwnerOk top b buf idle = 1 ≤ b
  OwnerOk top b buf (pushing v t) = (1 ≤ b) × (t ≤ top) × (b ≤ t + buf.cap + 1)
  OwnerOk top b buf (putting v) = (1 ≤ b) × (b ≤ top + buf.cap)
  OwnerOk top b buf (storing v) = (1 ≤ b) × (b ≤ top + buf.cap) × (get buf (b - 1) ≡ v)
  OwnerOk top b buf popping = Unit
  OwnerOk top b buf (racing t v) = (b ≡ t + 1) × (t ≤ top) × (v ≡ get buf t)
  OwnerOk top b buf (restoring e) = (top ≡ e) × (b ≤ e + 1)

  -- A thief whose index is still the top has found an entry there, and knows its value.
  abbrev pub ThiefOk : Deque A → Thief A → Type 0
  ThiefOk d outside = Unit
  ThiefOk d (got_top t) = t ≤ d.top
  ThiefOk d (in_range t) = (t < d.top) ⊎ ((t ≡ d.top) × (t < limit d))
  ThiefOk d (got_buffer t p) =
      (p ≤ d.current)
      × ((t < d.top) ⊎ ((t ≡ d.top) × (t < limit d) × (get (d.buffers p) t ≡ get (buffer d) t)))
  ThiefOk d (got_value t v) = (t < d.top) ⊎ ((t ≡ d.top) × (t < limit d) × (v ≡ get (buffer d) t))

  pub record Inv (d : Deque A) : Type 0 where
    pub order : d.top ≤ limit d
    pub room : limit d ≤ d.top + (buffer d).cap
    pub positive : 0 < (buffer d).cap
    pub owner_ok : OwnerOk d.top d.bottom_succ (buffer d) d.owner
    pub thief_ok : (i : ℕ) → ThiefOk d (d.thief i)

  init-Inv : (capacity : ℕ) (blank : A) → 0 < capacity → Inv (init capacity blank)
  unfolding init fresh
  init-Inv capacity blank h = record {
    order = omega arith;
    room = omega arith;
    positive = h;
    owner_ok = omega arith;
    thief_ok = λ i. tt;
  }

  -- The premises of a step, for the catch-all clauses below, which cannot name them.
  abbrev pub Guard :
      {blank : A} {d : Deque A} {es : List (Event A)} {e : Deque A} → Step blank d es e → Type 0
  Guard {d} (push_load v h) = d.owner ≡ idle
  Guard {d} (push_room v t h r) = (d.owner ≡ pushing v t) × (d.bottom_succ ≤ t + (buffer d).cap)
  Guard {d} (push_grow v t h r) = d.owner ≡ pushing v t
  Guard {d} (push_put v h) = d.owner ≡ putting v
  Guard {d} (push_store v h) = d.owner ≡ storing v
  Guard {d} (pop_lower h) = d.owner ≡ idle
  Guard {d} (pop_many h r) = (d.owner ≡ popping) × (d.top + 1 < d.bottom_succ)
  Guard {d} (pop_last h r) = (d.owner ≡ popping) × (d.top + 1 ≡ d.bottom_succ)
  Guard {d} (pop_empty h r) = (d.owner ≡ popping) × (d.bottom_succ ≤ d.top)
  Guard {d} (race_win t v h r) = (d.owner ≡ racing t v) × (d.top ≡ t)
  Guard {d} (race_lose t v h r) = (d.owner ≡ racing t v) × (d.top ≢ t)
  Guard {d} (restore e h) = d.owner ≡ restoring e
  Guard {d} (steal_top i h) = d.thief i ≡ outside
  Guard {d} (steal_range i t h r) = (d.thief i ≡ got_top t) × (t + 1 < d.bottom_succ)
  Guard {d} (steal_none i t h r) = d.thief i ≡ got_top t
  Guard {d} (steal_buffer i t h) = d.thief i ≡ in_range t
  Guard {d} (steal_value i t p h) = d.thief i ≡ got_buffer t p
  Guard {d} (steal_win i t v h r) = (d.thief i ≡ got_value t v) × (d.top ≡ t)
  Guard {d} (steal_lose i t v h r) = d.thief i ≡ got_value t v

  pub guard :
      {blank : A} {d : Deque A} {es : List (Event A)} {e : Deque A} (st : Step blank d es e)
      → Guard st
  guard (push_load v h) = h
  guard (push_room v t h r) = (h, r)
  guard (push_grow v t h r) = h
  guard (push_put v h) = h
  guard (push_store v h) = h
  guard (pop_lower h) = h
  guard (pop_many h r) = (h, r)
  guard (pop_last h r) = (h, r)
  guard (pop_empty h r) = (h, r)
  guard (race_win t v h r) = (h, r)
  guard (race_lose t v h r) = (h, r)
  guard (restore e h) = h
  guard (steal_top i h) = h
  guard (steal_range i t h r) = (h, r)
  guard (steal_none i t h r) = h
  guard (steal_buffer i t h) = h
  guard (steal_value i t p h) = h
  guard (steal_win i t v h r) = (h, r)
  guard (steal_lose i t v h r) = h

  module _ {blank : A} {d : Deque A} (w : Inv d) where
    open w use {order, room, positive, owner_ok, thief_ok}

    -- The buffer that a `push` grows has room for what it holds and one more.
    Step-indices :
        {es : List (Event A)} {e : Deque A}
        → Step blank d es e
        → (e.top ≤ limit e) × (limit e ≤ e.top + (buffer e).cap) × (0 < (buffer e).cap)
    Step-indices (push_grow v t h r) =
        ground (arith, order, room, owner_ok, cap-grow (buffer d) blank t (d.bottom_succ - 1))
    Step-indices (push_put v h) = ground (arith, order, cap-put (buffer d) (d.bottom_succ - 1) v)
    Step-indices (steal_win i t v h r) = ground (arith, order, thief_ok i)
    Step-indices st = ground (arith, guard st, order, room, owner_ok)

    Step-OwnerOk :
        {es : List (Event A)} {e : Deque A}
        → Step blank d es e
        → OwnerOk e.top e.bottom_succ (buffer e) e.owner
    Step-OwnerOk (push_grow v t h r) =
        ground (arith, order, owner_ok, cap-grow (buffer d) blank t (d.bottom_succ - 1))
    Step-OwnerOk (push_put v h) =
        let b = d.bottom_succ - 1 in
        ground (arith, owner_ok, cap-put (buffer d) b v, get-put_self (buffer d) b v)
    Step-OwnerOk (steal_win i t v h r) = ground (arith, owner_ok, thief_ok i)
    Step-OwnerOk st = ground (arith, guard st, order, room, owner_ok)

    Step-ThiefOk :
        {es : List (Event A)} {e : Deque A} → Step blank d es e → (j : ℕ) → ThiefOk e (e.thief j)
    Step-ThiefOk (push_grow v t h r) j =
        ground (arith, owner_ok, thief_ok j, get-grow (buffer d) blank t (d.bottom_succ - 1) d.top)
    Step-ThiefOk (push_put v h) j =
        ground (arith, owner_ok, thief_ok j, get-put_before (buffer d) (d.bottom_succ - 1) d.top v)
    Step-ThiefOk st j = ground (arith, guard st, order, owner_ok, thief_ok j)

  pub Step-Inv :
      {blank : A} {d : Deque A} {es : List (Event A)} {e : Deque A}
      → Step blank d es e
      → Inv d
      → Inv e
  Step-Inv st w = record {
    order = (Step-indices w st).0;
    room = (Step-indices w st).1;
    positive = (Step-indices w st).2;
    owner_ok = Step-OwnerOk w st;
    thief_ok = Step-ThiefOk w st;
  }

  pub Reach-Inv :
      {capacity : ℕ} {blank : A} {es : List (Event A)} {d : Deque A}
      → 0 < capacity
      → Reach capacity blank es d
      → Inv d
  Reach-Inv {capacity} {blank} h start = init-Inv capacity blank h
  Reach-Inv h (later r st) = Step-Inv st (Reach-Inv h r)
