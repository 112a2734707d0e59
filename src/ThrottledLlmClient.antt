-- ===== src/ThrottledLlmClient.antt =====
-- `ThrottledLLMClient::complete` of src/llm/throttled_llm_client.h: many calls over one semaphore. The
-- rate limiter, whose own module is RateLimiter, lets a call through at any time here. The inner client
-- is whatever it does: it throws, or its future is satisfied with a response or an exception.
pub mod Permits
mod Tests
use forge_lock_free.Base.{ℕ, zero, suc, ◌+◌, ◌<◌, ◌≡◌, update}
use forge_lock_free.Semaphore.{Semaphore, release}

-- Where a call stands: `limited` after `rate_.acquire(1)`, `permitted` after `sem_.acquire()`,
-- `throwing` in the catch block, `waiting` once the inner future has its continuation, `released` in
-- the continuation after the release. `lost` is a call whose inner future got an exception:
-- `set_exception` deletes the continuation and does not call it.
pub data Call (R E : Type 0) : Type 0 where
  outside limited permitted waiting : Call R E
  throwing thrown lost : E → Call R E
  released answered : R → Call R E

pub record System (R E : Type 0) : Type 0 where
  pub sem : Semaphore
  pub call : ℕ → Call R E

unfoldable pub init : {R E : Type 0} → ℕ → System R E
init max = record { sem = record { permits = max; max_permits = max }; call = λ i. outside }

-- The compare-exchange that ends `acquire`.
unfoldable pub take : ℕ → Semaphore → Semaphore
take n s = record s { permits = n }

module _ {R E : Type 0} where
  -- One step of call `i`, of `calls` in all.
  pub data Step (calls : ℕ) (s : System R E) : System R E → Type 0 where
    limit :
        (i : ℕ)
        → i < calls
        → s.call i ≡ outside
        → Step calls s (record s { call = update s.call i limited })
    acquire :
        (i n : ℕ)
        → i < calls
        → s.call i ≡ limited
        → s.sem.permits ≡ suc n
        → Step calls s (record { sem = take n s.sem; call = update s.call i permitted })
    inner_throws :
        (i : ℕ) (e : E)
        → i < calls
        → s.call i ≡ permitted
        → Step calls s (record s { call = update s.call i (throwing e) })
    rethrow :
        (i : ℕ) (e : E)
        → i < calls
        → s.call i ≡ throwing e
        → Step calls s (record { sem = release s.sem; call = update s.call i (thrown e) })
    chain :
        (i : ℕ)
        → i < calls
        → s.call i ≡ permitted
        → Step calls s (record s { call = update s.call i waiting })
    respond :
        (i : ℕ) (r : R)
        → i < calls
        → s.call i ≡ waiting
        → Step calls s (record { sem = release s.sem; call = update s.call i (released r) })
    satisfy :
        (i : ℕ) (r : R)
        → i < calls
        → s.call i ≡ released r
        → Step calls s (record s { call = update s.call i (answered r) })
    fail :
        (i : ℕ) (e : E)
        → i < calls
        → s.call i ≡ waiting
        → Step calls s (record s { call = update s.call i (lost e) })

  pub data Reach (max calls : ℕ) : System R E → Type 0 where
    start : Reach max calls (init max)
    later : {s t : System R E} → Reach max calls s → Step calls s t → Reach max calls t
