-- ===== src/Mpsc/Tests.antt =====
-- Two producers that interleave, and the theorems at them.
use forge_lock_free.Base.{ℕ, zero, suc, ◌≡◌, refl, true, none, some, List, [], ◌∷◌, ◌++◌, arith}
use forge_lock_free.Mpsc.{
  Event, enqueued, dequeued, Queue, idle, init, push_new, push_exchange, push_link, pop_some,
  pop_none, Reach, start, later,
}
use forge_lock_free.Mpsc.Fifo.{contents, ins, outs, fifo, predecessor, no_dangling}

abbrev Run : List (Event ℕ) → Type 0
Run es = (q : Queue ℕ) × Reach 0 es q

-- Producer 1 made its node first, producer 0 exchanged first.
exchanged : Run (enqueued 7 ∷ enqueued 8 ∷ [])
unfolding init
exchanged = (
  _,
  later
      (later (later (later start (push_new 1 8 refl)) (push_new 0 7 refl))
        (push_exchange 0 2 7 refl))
      (push_exchange 1 1 8 refl),
)

-- Producer 1 links first; the consumer sees nothing until producer 0 links, and then both values.
popped : Run (enqueued 7 ∷ enqueued 8 ∷ dequeued none ∷ dequeued (some 7) ∷ [])
unfolding exchanged init
popped =
    let half = later (later exchanged.1 (push_link 1 2 1 1 refl)) (pop_none refl) in
    (_, later (later half (push_link 0 0 2 0 refl)) (pop_some 2 refl))

popped_idle : (i : ℕ) → popped.0.producer i ≡ idle
unfolding popped exchanged init
popped_idle zero = refl
popped_idle (suc zero) = refl
popped_idle (suc (suc i)) = ground arith

fifo_example :
    ins (enqueued 7 ∷ enqueued 8 ∷ dequeued none ∷ dequeued (some 7) ∷ [])
    ≡ outs (enqueued 7 ∷ enqueued 8 ∷ dequeued none ∷ dequeued (some 7) ∷ []) ++ contents popped.0
fifo_example = fifo popped.1

no_dangling_example : (exchanged.0.heap 2).live ≡ true
unfolding exchanged init
no_dangling_example = no_dangling exchanged.1 (predecessor 1 2 1 1 refl)
