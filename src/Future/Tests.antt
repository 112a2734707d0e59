-- ===== src/Future/Tests.antt =====
-- Two orders of `set_value` and `then`, and the theorems at them.
use forge_lock_free.Base.{ℕ, ◌≡◌, ◌≢◌, refl, true, false, none, some, [], ◌∷◌, arith, Option}
use forge_lock_free.Future.{
  Outcome, value, exception, null, cont, State, init, fill, run_prev, run_cont, read, write,
  publish, exchange, invoke, then_exchange, then_early, then_late, then_restore, get, Reach, start,
  later, destroy, backoff, spin, yield, sleep_us, ran_task,
}
use forge_lock_free.Future.Protocol.{fires_once, get_outcome, set_to}
use forge_lock_free.Future.Void
use forge_lock_free.Future.Void.Refinement.{Simulated, void_refines}

-- The producer has exchanged the slot before the consumer calls `then`.
abbrev Late : Type 0
Late = (s : State ℕ ℕ) × Reach s

set_first : Late
unfolding init fill run_prev
set_first = (
  _,
  later
      (later (later (later start (write (value 7) refl)) (publish (value 7) refl))
        (exchange (value 7) refl))
      (invoke (value 7) null refl),
)

late : Late
unfolding set_first init fill run_prev run_cont
late =
    (_, later (later (later set_first.1 (then_exchange refl)) (then_late refl)) (then_restore refl))

-- The consumer calls `then` between the producer's publication and its exchange.
early : Late
unfolding init fill run_prev
early = (
  _,
  later
      (later
        (later
          (later (later (later start (write (exception 4) refl)) (publish (exception 4) refl))
            (then_exchange refl))
          (exchange (exception 4) refl))
        (then_early null refl (ground arith)))
      (invoke (exception 4) cont refl),
)

read_back : Late
unfolding set_first init fill run_prev read
read_back = (_, later set_first.1 (get refl refl))

waits :
    (backoff true 0 ≡ ran_task)
    × (backoff false 3 ≡ spin)
    × (backoff false 4 ≡ yield)
    × (backoff false 16 ≡ sleep_us 1)
    × (backoff false 64 ≡ sleep_us 100)
unfolding backoff
waits = (refl, refl, refl, refl, refl)

fires_once_example : (late.0.fired ≡ some 7 ∷ []) × (late.0.deletes ≡ 1) × (destroy late.0 ≡ 1)
unfolding late set_first
fires_once_example = fires_once {o = value 7} {prev = null} late.1 refl refl

get_outcome_example :
    (some (value 7) ≡ set_to read_back.0.producer)
    × ◌≢◌ {A = Option (Outcome ℕ ℕ)} (some (value 7)) none
unfolding read_back set_first read fill init run_prev
get_outcome_example = get_outcome read_back.1 refl

-- A callback without a value, registered before `set_value`.
void_early : (v : Void.State ℕ) × Void.Reach v
unfolding Void.init Void.run_prev
void_early = (
  _,
  Void.later
      (Void.later
        (Void.later
          (Void.later (Void.later Void.start (Void.then_exchange refl))
            (Void.then_early null refl (ground arith)))
          (Void.set_value refl))
        (Void.exchange (value tt) refl))
      (Void.invoke (value tt) cont refl),
)

void_fired : (void_early.0.fired ≡ 1) × (void_early.0.deletes ≡ 1)
unfolding void_early Void.init Void.run_prev
void_fired = (refl, refl)

void_refines_example : Simulated void_early.0
void_refines_example = void_refines void_early.1
