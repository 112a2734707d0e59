-- ===== src/Semaphore/Tests.antt =====
-- Runs of the semaphore, and its theorems at them.
use forge_lock_free.Base.{◌+◌, ◌≤◌, ◌≡◌, refl, true, ltb, List, [], ◌∷◌, arith}
use forge_lock_free.Base.Trace.{Replays}
use forge_lock_free.Semaphore.{
  Event, take, refuse, returns, give, spin, yield, sleep_us, backoff, System, load, cas_win,
  cas_lose, give_back, return_true, Reach, start, later, init, release_assert, observe, seen,
}
use forge_lock_free.Semaphore.Counting.{permits_conserved}
use forge_lock_free.Semaphore.Linear.{Allows, full, counter, semaphore_linearizable}

waits :
    (backoff 3 ≡ spin)
    × (backoff 15 ≡ yield)
    × (backoff 63 ≡ sleep_us 10)
    × (backoff 64 ≡ sleep_us 100)
unfolding backoff
waits = (refl, refl, refl, refl)

abbrev Run : List Event → Type 0
Run es = (s : System) × Reach 1 es s

-- One permit: threads 0 and 1 both load 1, thread 0 wins it, and thread 1 is refused.
contended : Run (take 0 ∷ refuse 1 ∷ [])
unfolding init observe seen
contended = (
  _,
  later (later (later (later start (load 0 refl)) (load 1 refl)) (cas_win 0 1 refl refl))
      (cas_lose 1 1 refl),
)

-- Then thread 0 returns and gives the permit back.
returned : Run (take 0 ∷ refuse 1 ∷ returns 0 true ∷ give ∷ [])
unfolding contended init observe seen
returned = (_, later (later contended.1 (return_true 0 refl)) (give_back 0 refl (omega arith)))

permits_conserved_example :
    (contended.0.sem.permits + contended.0.held ≡ 1)
    × (contended.0.held ≤ 1)
    × (release_assert contended.0.sem ≡ ltb 0 contended.0.held)
permits_conserved_example = permits_conserved contended.1

semaphore_linearizable_example :
    Replays
      (Allows 1)
      (full 1)
      (take 0 ∷ refuse 1 ∷ returns 0 true ∷ give ∷ [])
      (counter returned.0)
semaphore_linearizable_example = semaphore_linearizable returned.1
