-- ===== src/ConcurrentMap/Contention.antt =====
-- Several threads in `insert_if_under`: the count of the stripes, under one lock after another, and the
-- insertion are separate steps.
pub mod Capacity
use forge_lock_free.Base.{ℕ, zero, suc, ◌+◌, ◌≤◌, ◌<◌, ◌≡◌, List, [], ◌∷◌, length, update}
use forge_lock_free.ConcurrentMap.{Stripes, size_from, insert}

-- Where a thread stands in `insert_if_under`: in the loop of `size`, before stripe `j` and with `total`, or
-- past the test. `begun`, which only proofs read, is the size when it began.
pub data Call (V : Type 0) : Type 0 where
  outside : Call V
  counting : (key : ℕ) (value : V) (j total begun : ℕ) → Call V
  passed : (key : ℕ) (value : V) (begun : ℕ) → Call V

pub record System (V : Type 0) : Type 0 where
  pub table : Stripes V
  pub call : ℕ → Call V

unfoldable pub init : {V : Type 0} → System V
init = record { table = λ i. []; call = λ i. outside }

module _ {V : Type 0} (hash : ℕ → ℕ) (count threads max_size : ℕ) where
  -- A step of thread `i`, in calls with the bound `max_size`.
  pub data Step (s : System V) : System V → Type 0 where
    begin :
        (i key : ℕ) (value : V)
        → i < threads
        → s.call i ≡ outside
        → Step s
            (record s { call = update s.call i (counting key value 0 0 (size_from count s.table)) })
    count_stripe :
        (i key : ℕ) (value : V) (j total begun : ℕ)
        → i < threads
        → s.call i ≡ counting key value j total begun
        → j < count
        → Step s (record s {
          call = update s.call i (counting key value (suc j) (total + length (s.table j)) begun);
        })
    refuse :
        (i key : ℕ) (value : V) (total begun : ℕ)
        → i < threads
        → s.call i ≡ counting key value count total begun
        → max_size ≤ total
        → Step s (record s { call = update s.call i outside })
    pass :
        (i key : ℕ) (value : V) (total begun : ℕ)
        → i < threads
        → s.call i ≡ counting key value count total begun
        → total < max_size
        → Step s (record s { call = update s.call i (passed key value begun) })
    put :
        (i key : ℕ) (value : V) (begun : ℕ)
        → i < threads
        → s.call i ≡ passed key value begun
        → Step s (record {
          table = (insert hash count key value s.table).0;
          call = update s.call i outside;
        })

  pub data Reach : System V → Type 0 where
    start : Reach init
    later : {s t : System V} → Reach s → Step s t → Reach t
