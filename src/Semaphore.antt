-- ===== src/Semaphore.antt =====
-- The counting semaphore of src/core/semaphore.h, its atomics one shared access at a time.
-- `permits_` starts positive and is lowered only from a positive value, so it is a ℕ here.
pub mod Counting
pub mod Linear
mod Tests
use forge_lock_free.Base.{
  ℕ, zero, suc, ◌+◌, ◌-◌, ◌<◌, ◌≡◌, Bool, true, false, ltb, leb, if◌then◌else◌, update, Option,
  none, some, List, [], ◌∷◌, ◌++◌,
}

pub record Semaphore : Type 0 where
  pub permits : ℕ
  pub max_permits : ℕ

-- Where a thread stands. `trying current` is before the compare-exchange of `try_acquire`;
-- `acquired` and `refused` are before its two returns.
pub data Pc : Type 0 where
  outside : Pc
  trying : (current : ℕ) → Pc
  acquired : Pc
  refused : Pc

-- The loop test of `try_acquire` on the value that was loaded, or that a failed compare-exchange
-- put into `current`.
unfoldable pub observe : ℕ → Pc
observe zero = refused
observe (suc n) = trying (suc n)

-- What a thread sees happen to the semaphore, and what its call of `try_acquire` returns.
pub data Event : Type 0 where
  take refuse : (i : ℕ) → Event
  returns : (i : ℕ) → Bool → Event
  give : Event

unfoldable pub seen : (i : ℕ) → ℕ → List Event
seen i zero = refuse i ∷ []
seen i (suc n) = []

-- `fetch_add` in `release`, and what its `assert` tests of the previous value.
unfoldable pub release : Semaphore → Semaphore
release s = record s { permits = s.permits + 1 }

unfoldable pub release_assert : Semaphore → Bool
release_assert s = ltb s.permits s.max_permits

-- The waits of `acquire` between two calls of `try_acquire`, by its counter `iter`.
pub data Wait : Type 0 where
  spin yield : Wait
  sleep_us : ℕ → Wait

pub backoff : ℕ → Wait
backoff iter =
    if ltb iter 4
    then spin
    else if ltb iter 16
    then yield
    else if ltb iter 64
    then sleep_us 10
    else sleep_us 100

-- All threads over one semaphore. `held` counts the permits that were acquired and not released.
pub record System : Type 0 where
  pub sem : Semaphore
  pub pc : ℕ → Pc
  pub held : ℕ

unfoldable pub init : ℕ → System
init max = record { sem = record { permits = max; max_permits = max }; pc = λ _. outside; held = 0 }

-- One access by thread `i`, with the events that it makes. The weak compare-exchange may fail also
-- when the value is the expected one. A thread releases only a permit that is held, by itself or by
-- another; a call of `acquire` is a row of calls of `try_acquire` that are refused, but the last.
pub data Step (s : System) : List Event → System → Type 0 where
  load :
      (i : ℕ)
      → s.pc i ≡ outside
      → Step s (seen i s.sem.permits) (record s { pc = update s.pc i (observe s.sem.permits) })
  cas_win :
      (i c : ℕ)
      → s.pc i ≡ trying c
      → s.sem.permits ≡ c
      → Step s (take i ∷ []) (record {
        sem = record { permits = c - 1; max_permits = s.sem.max_permits };
        pc = update s.pc i acquired;
        held = s.held + 1;
      })
  cas_lose :
      (i c : ℕ)
      → s.pc i ≡ trying c
      → Step s (seen i s.sem.permits) (record s { pc = update s.pc i (observe s.sem.permits) })
  return_true :
      (i : ℕ)
      → s.pc i ≡ acquired
      → Step s (returns i true ∷ []) (record s { pc = update s.pc i outside })
  return_false :
      (i : ℕ)
      → s.pc i ≡ refused
      → Step s (returns i false ∷ []) (record s { pc = update s.pc i outside })
  give_back :
      (i : ℕ)
      → s.pc i ≡ outside
      → 0 < s.held
      → Step s (give ∷ []) (record { sem = release s.sem; pc = s.pc; held = s.held - 1 })

pub data Reach (max : ℕ) : List Event → System → Type 0 where
  start : Reach max [] (init max)
  later :
      {es fs : List Event} {s t : System} → Reach max es s → Step s fs t → Reach max (es ++ fs) t
