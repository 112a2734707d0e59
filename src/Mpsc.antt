-- ===== src/Mpsc.antt =====
-- The queue of src/core/mpsc_queue.h: any number of producers and one consumer, interleaved one
-- shared access at a time (the atomics are taken as sequentially consistent), on an explicit heap.
pub mod Invariant
pub mod Fifo
mod Tests
use forge_lock_free.Base.{
  ℕ, suc, ◌+◌, ◌≡◌, Bool, true, false, Option, none, some, List, [], ◌∷◌, ◌++◌, update,
}

-- `live` is false once the node is deleted.
pub record Node (A : Type 0) : Type 0 where
  pub next : Option ℕ
  pub value : Option A
  pub live : Bool

-- A producer's place in `push`. `turn` is for the proofs: how many exchanges came before its own.
pub data Producer (A : Type 0) : Type 0 where
  idle : Producer A
  made : (node : ℕ) (value : A) → Producer A  -- before the exchange of `head_`
  linking : (prev node turn : ℕ) → Producer A  -- before the store in `prev->next`

-- A push takes effect at its exchange. `dequeued` carries what `pop` returns.
pub data Event (A : Type 0) : Type 0 where
  enqueued : A → Event A
  dequeued : Option A → Event A

-- Nodes are numbers, and `new` takes `fresh`. The last five fields are for the proofs: the node, the
-- value and the thread of each exchange, and how many exchanges and successful pops there were. The
-- first node of `order` is the sentinel of the constructor.
pub record Queue (A : Type 0) : Type 0 where
  pub heap : ℕ → Node A
  pub fresh : ℕ
  pub head : ℕ
  pub tail : ℕ
  pub producer : ℕ → Producer A
  pub order : ℕ → ℕ
  pub vals : ℕ → A
  pub linker : ℕ → ℕ
  pub pushes : ℕ
  pub pops : ℕ

module _ {A : Type 0} where
  abbrev pub blank : Node A
  blank = record { next = none; value = none; live = true }

  unfoldable pub init : A → Queue A
  init any = record {
    heap = λ _. blank;
    fresh = 1;
    head = 0;
    tail = 0;
    producer = λ _. idle;
    order = λ _. 0;
    vals = λ _. any;
    linker = λ _. 0;
    pushes = 0;
    pops = 0;
  }

  -- One access, with the calls that take effect at it. In `pop` only the load of `next` reads what
  -- producers write, so the whole call is one step; the moved-from value is left where it was.
  pub data Step (q : Queue A) : List (Event A) → Queue A → Type 0 where
    push_new :
        (i : ℕ) (v : A)
        → q.producer i ≡ idle
        → Step q [] (record q {
          heap = update q.heap q.fresh (record { next = none; value = some v; live = true });
          fresh = q.fresh + 1;
          producer = update q.producer i (made q.fresh v);
        })
    push_exchange :
        (i n : ℕ) (v : A)
        → q.producer i ≡ made n v
        → Step q (enqueued v ∷ []) (record q {
          head = n;
          producer = update q.producer i (linking q.head n q.pushes);
          order = update q.order (suc q.pushes) n;
          vals = update q.vals (suc q.pushes) v;
          linker = update q.linker q.pushes i;
          pushes = suc q.pushes;
        })
    push_link :
        (i p n k : ℕ)
        → q.producer i ≡ linking p n k
        → Step q [] (record q {
          heap = update q.heap p (record (q.heap p) { next = some n });
          producer = update q.producer i idle;
        })
    pop_some :
        (b : ℕ)
        → (q.heap q.tail).next ≡ some b
        → Step q (dequeued (q.heap b).value ∷ []) (record q {
          tail = b;
          heap = update q.heap q.tail (record (q.heap q.tail) { live = false });
          pops = suc q.pops;
        })
    pop_none : (q.heap q.tail).next ≡ none → Step q (dequeued none ∷ []) q

  -- `empty`.
  unfoldable pub is_empty : Queue A → Bool
  is_empty q = elim (q.heap q.tail).next [ none ↦ true | some b ↦ false ]

  pub data Reach (any : A) : List (Event A) → Queue A → Type 0 where
    start : Reach any [] (init any)
    later :
        {es fs : List (Event A)} {q r : Queue A}
        → Reach any es q
        → Step q fs r
        → Reach any (es ++ fs) r
