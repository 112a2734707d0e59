-- ===== src/RateLimiter/Tests.antt =====
-- Runs of the token bucket, and its theorem at one.
use Prim.Native.Nat.{◌*◌}
use forge_lock_free.Base.{ℕ, ◌+◌, ◌-◌, ◌≤◌, refl, List, [], ◌∷◌, arith}
use forge_lock_free.RateLimiter.{
  Event, granted, refused, System, load_refill, claim_win, load_current, add_win, load_tokens,
  take_win, Reach, start, later, init, window, credit, observe, seen,
}
use forge_lock_free.RateLimiter.Rate.{spent, rate_bound}

-- Two tokens in a microsecond, and a bucket of ten.
abbrev twice : ℕ → ℕ
twice n = 2 * n

abbrev Run : List Event → Type 0
Run es = (s : System) × Reach twice 2 10 100 es s

-- Thread 0 takes 8 at once; thread 1 asks for 7 two microseconds later, and is refused.
drained : Run (granted 8 ∷ [])
unfolding init window observe seen
drained = (
  _,
  later
      (later (later start (load_refill 0 8 100 (omega arith) refl))
        (load_tokens 0 8 (omega arith) refl))
      (take_win 0 8 10 (omega arith) refl refl),
)

short : Run (granted 8 ∷ refused ∷ [])
unfolding drained init window credit observe seen
short = (
  _,
  later
      (later
        (later
          (later (later drained.1 (load_refill 1 7 102 (omega arith) refl))
            (claim_win 1 7 102 100 (omega arith) refl refl))
          (load_current 1 7 4 (omega arith) refl))
        (add_win 1 7 4 2 (omega arith) refl refl))
      (load_tokens 1 7 (omega arith) refl),
)

rate_bound_example :
    (spent (granted 8 ∷ refused ∷ []) + short.0.limiter.tokens
      ≤ 10 + 2 * (short.0.limiter.last_refill - 100))
    × (short.0.limiter.tokens ≤ 10)
rate_bound_example = rate_bound 2 (λ n. omega arith) short.1
