-- ===== src/RateLimiter.antt =====
-- The token bucket of src/core/rate_limiter.h, its atomics one shared access at a time (taken as
-- sequentially consistent). Amounts are in millionths of a token, as the source stores them, and not
-- negative; times are in microseconds. `minted` stands for the double arithmetic of `refill`, which
-- turns the microseconds of a window into tokens, truncated.
pub mod Rate
mod Tests
use forge_lock_free.Base.{
  ℕ, zero, suc, ◌+◌, ◌-◌, ◌<◌, ◌≤◌, ◌≡◌, Bool, ltb, leb, if◌then◌else◌, update, List, [], ◌∷◌, ◌++◌,
}

pub record RateLimiter : Type 0 where
  pub tokens : ℕ
  pub last_refill : ℕ
  pub burst : ℕ

-- A thread's place in `try_acquire`, the call of `refill` included. `claiming` is before the
-- compare-exchange of `last_refill_`, `minting` has claimed a window worth `new_tokens`, `adding` is
-- before the compare-exchange that adds them; `ready` has left `refill`, and `taking` is before the
-- compare-exchange that takes the amount.
pub data Pc : Type 0 where
  outside : Pc
  claiming : (needed now prev : ℕ) → Pc
  minting : (needed new_tokens : ℕ) → Pc
  adding : (needed new_tokens current : ℕ) → Pc
  ready : (needed : ℕ) → Pc
  taking : (needed current : ℕ) → Pc

-- What the calls of `try_acquire` return: true for an amount, or false.
pub data Event : Type 0 where
  granted : ℕ → Event
  refused : Event

abbrev pub min : ℕ → ℕ → ℕ
min a b = if leb a b then a else b

-- `if (elapsed_us <= 0) return;`
unfoldable pub window : ℕ → ℕ → ℕ → Pc
window needed now prev = if leb now prev then ready needed else claiming needed now prev

-- `if (new_tokens <= 0) return;`
unfoldable pub credit : ℕ → ℕ → Pc
credit needed zero = ready needed
credit needed (suc n) = minting needed (suc n)

-- `if (current < needed) return false;`
unfoldable pub observe : ℕ → ℕ → Pc
observe needed current = if ltb current needed then outside else taking needed current

-- The event of that test.
unfoldable pub seen : ℕ → ℕ → List Event
seen needed current = if ltb current needed then refused ∷ [] else []

pub record System : Type 0 where
  pub limiter : RateLimiter
  pub pc : ℕ → Pc

unfoldable pub init : ℕ → ℕ → System
init burst now = record {
  limiter = record { tokens = burst; last_refill = now; burst = burst };
  pc = λ _. outside;
}

-- One access by one of `threads` threads. The weak compare-exchanges may fail at any time.
module _ (minted : ℕ → ℕ) (threads : ℕ) where
  pub data Step (s : System) : List Event → System → Type 0 where
    load_refill :
        (i needed now : ℕ)
        → i < threads
        → s.pc i ≡ outside
        → Step s [] (record s { pc = update s.pc i (window needed now s.limiter.last_refill) })
    claim_win :
        (i needed now prev : ℕ)
        → i < threads
        → s.pc i ≡ claiming needed now prev
        → s.limiter.last_refill ≡ prev
        → Step s [] (record {
          limiter = record s.limiter { last_refill = now };
          pc = update s.pc i (credit needed (minted (now - prev)));
        })
    claim_lose :
        (i needed now prev : ℕ)
        → i < threads
        → s.pc i ≡ claiming needed now prev
        → Step s [] (record s { pc = update s.pc i (window needed now s.limiter.last_refill) })
    load_current :
        (i needed n : ℕ)
        → i < threads
        → s.pc i ≡ minting needed n
        → Step s [] (record s { pc = update s.pc i (adding needed n s.limiter.tokens) })
    add_win :
        (i needed n current : ℕ)
        → i < threads
        → s.pc i ≡ adding needed n current
        → s.limiter.tokens ≡ current
        → Step s [] (record {
          limiter = record s.limiter { tokens = min (current + n) s.limiter.burst };
          pc = update s.pc i (ready needed);
        })
    add_lose :
        (i needed n current : ℕ)
        → i < threads
        → s.pc i ≡ adding needed n current
        → Step s [] (record s { pc = update s.pc i (adding needed n s.limiter.tokens) })
    load_tokens :
        (i needed : ℕ)
        → i < threads
        → s.pc i ≡ ready needed
        → Step s
            (seen needed s.limiter.tokens)
            (record s { pc = update s.pc i (observe needed s.limiter.tokens) })
    take_win :
        (i needed current : ℕ)
        → i < threads
        → s.pc i ≡ taking needed current
        → s.limiter.tokens ≡ current
        → Step s (granted needed ∷ []) (record {
          limiter = record s.limiter { tokens = current - needed };
          pc = update s.pc i outside;
        })
    take_lose :
        (i needed current : ℕ)
        → i < threads
        → s.pc i ≡ taking needed current
        → Step s
            (seen needed s.limiter.tokens)
            (record s { pc = update s.pc i (observe needed s.limiter.tokens) })

  pub data Reach (burst began : ℕ) : List Event → System → Type 0 where
    start : Reach burst began [] (init burst began)
    later :
        {es fs : List Event} {s t : System}
        → Reach burst began es s
        → Step s fs t
        → Reach burst began (es ++ fs) t
