-- ===== src/Deque/Tests.antt =====
-- A race for the last entry of a deque, and the theorems at it.
use mathlib.Core.List.{Perm}
use forge_lock_free.Base.{ℕ, refl, none, some, List, [], ◌∷◌, ◌++◌, arith}
use forge_lock_free.Base.Trace.{Replays}
use forge_lock_free.Deque.Circular.{fresh, put, get, copy, grow}
use forge_lock_free.Deque.{
  Event, pushed, popped, stolen, Deque, init, push_load, push_room, push_grow, push_put, push_store,
  pop_lower, pop_many, pop_last, race_lose, restore, steal_top, steal_range, steal_buffer,
  steal_value, steal_win, Reach, start, later,
}
use forge_lock_free.Deque.Contents.{contents, Allows, deque_linearizable}
use forge_lock_free.Deque.Once.{ins, outs, taken_once}

abbrev Run : List (Event ℕ) → Type 0
Run es = (d : Deque ℕ) × Reach 1 0 es d

one_entry : Run (pushed 7 ∷ [])
unfolding init fresh put
one_entry = (
  _,
  later
      (later (later (later start (push_load 7 refl)) (push_room 7 0 refl (omega arith)))
        (push_put 7 refl))
      (push_store 7 refl),
)

-- A thief takes the entry between the owner's look at `top_` and its compare-exchange.
stolen_last : Run (pushed 7 ∷ stolen 7 ∷ popped none ∷ [])
unfolding one_entry init fresh put get
stolen_last =
    let found =
      later
        (later (later (later one_entry.1 (steal_top 0 refl)) (steal_range 0 0 refl (omega arith)))
          (steal_buffer 0 0 refl))
        (steal_value 0 0 0 refl) in
    let raced = later (later found (pop_lower refl)) (pop_last refl refl) in
    (
      _,
      later (later (later raced (steal_win 0 0 7 refl refl)) (race_lose 0 7 refl (omega arith)))
          (restore 1 refl),
    )

-- The second entry does not fit: the buffer grows, and `pop` returns it.
grown : Run (pushed 7 ∷ pushed 8 ∷ popped (some 8) ∷ [])
unfolding one_entry init fresh put get copy grow
grown =
    let full = later (later one_entry.1 (push_load 8 refl)) (push_grow 8 0 refl (omega arith)) in
    let two = later (later full (push_put 8 refl)) (push_store 8 refl) in
    (_, later (later two (pop_lower refl)) (pop_many refl (omega arith)))

deque_linearizable_example :
    Replays Allows [] (pushed 7 ∷ stolen 7 ∷ popped none ∷ []) (contents stolen_last.0)
deque_linearizable_example = deque_linearizable (omega arith) stolen_last.1

taken_once_example :
    Perm
      (ins (pushed 7 ∷ pushed 8 ∷ popped (some 8) ∷ []))
      (outs (pushed 7 ∷ pushed 8 ∷ popped (some 8) ∷ []) ++ contents grown.0)
taken_once_example = taken_once (omega arith) grown.1
