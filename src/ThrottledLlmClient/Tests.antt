-- ===== src/ThrottledLlmClient/Tests.antt =====
-- A run of the throttled client with one permit.
use forge_lock_free.Base.{ℕ, ◌+◌, ◌-◌, ◌≤◌, ◌≡◌, refl, arith}
use forge_lock_free.Base.Family.{total}
use forge_lock_free.Semaphore.{release}
use forge_lock_free.ThrottledLlmClient.{
  System, init, take, limit, acquire, inner_throws, rethrow, chain, respond, satisfy, fail, Reach,
  start, later,
}
use forge_lock_free.ThrottledLlmClient.Permits.{in_flight, leaked, permits_accounted}

abbrev Run : Type 0
Run = (s : System ℕ ℕ) × Reach 1 3 s

-- Call 0 is answered, and call 1 is rethrown: the permit is free again.
two_calls : Run
unfolding init take release
two_calls = (
  _,
  later
      (later
        (later
          (later
            (later
              (later
                (later
                  (later (later start (limit 0 (omega arith) refl))
                    (acquire 0 0 (omega arith) refl refl))
                  (chain 0 (omega arith) refl))
                (respond 0 7 (omega arith) refl))
              (satisfy 0 7 (omega arith) refl))
            (limit 1 (omega arith) refl))
          (acquire 1 0 (omega arith) refl refl))
        (inner_throws 1 9 (omega arith) refl))
      (rethrow 1 9 (omega arith) refl),
)

-- Call 2 fails later: the permit is gone.
one_lost : Run
unfolding two_calls init take release
one_lost = (
  _,
  later
      (later
        (later (later two_calls.1 (limit 2 (omega arith) refl))
          (acquire 2 0 (omega arith) refl refl))
        (chain 2 (omega arith) refl))
      (fail 2 9 (omega arith) refl),
)

gone : (two_calls.0.sem.permits ≡ 1) × (one_lost.0.sem.permits ≡ 0)
unfolding one_lost two_calls init take release
gone = (refl, refl)

permits_accounted_example :
    (one_lost.0.sem.permits + total in_flight 3 one_lost.0.call + total leaked 3 one_lost.0.call
      ≡ 1)
    × (total in_flight 3 one_lost.0.call ≤ 1 - total leaked 3 one_lost.0.call)
permits_accounted_example = permits_accounted one_lost.1
