-- ===== src/Mpsc/Invariant.antt =====
-- The nodes from the tail to the head, in the order of the exchanges.
use forge_lock_free.Base.{
  ℕ, suc, ◌≤◌, ◌<◌, ◌≡◌, ◌≢◌, ◌⊎◌, inl, inr, refl, true, false, none, some, List, arith, update,
  Bool-cases, ◌==◌,
}
use forge_lock_free.Mpsc.{
  Node, Producer, idle, made, linking, Event, Queue, init, Step, push_new, push_exchange, push_link,
  pop_some, pop_none, Reach, start, later,
}

module _ {A : Type 0} where
  abbrev node : Queue A → ℕ → Node A
  node q k = q.heap (q.order k)

  -- Between two neighbours the link is there, or the thread that exchanged is about to store it.
  abbrev pub Linked : Queue A → ℕ → Type 0
  Linked q k =
      ((node q k).next ≡ some (q.order (suc k)))
      ⊎ (((node q k).next ≡ none)
          × (q.producer (q.linker k) ≡ linking (q.order k) (q.order (suc k)) k))

  -- What a producer's locals say.
  abbrev pub ProducerOk : Queue A → ℕ → Producer A → Type 0
  ProducerOk q i idle = Unit
  ProducerOk q i (made n v) =
      (n < q.fresh)
      × ((q.heap n).next ≡ none)
      × ((q.heap n).value ≡ some v)
      × ((q.heap n).live ≡ true)
  ProducerOk q i (linking p n k) =
      (q.pops ≤ k)
      × (k < q.pushes)
      × (p ≡ q.order k)
      × (n ≡ q.order (suc k))
      × ((q.heap p).next ≡ none)
      × (q.linker k ≡ i)

  pub record Inv (q : Queue A) : Type 0 where
    pub span : q.pops ≤ q.pushes
    pub tail_at : q.tail ≡ q.order q.pops
    pub head_at : q.head ≡ q.order q.pushes
    pub last : (node q q.pushes).next ≡ none
    pub link : (k : ℕ) → q.pops ≤ k → k < q.pushes → Linked q k
    pub apart : (j k : ℕ) → q.pops ≤ j → j < k → k ≤ q.pushes → q.order j ≢ q.order k
    pub alive :
        (k : ℕ) → q.pops ≤ k → k ≤ q.pushes → (q.order k < q.fresh) × ((node q k).live ≡ true)
    pub kept : (k : ℕ) → q.pops < k → k ≤ q.pushes → (node q k).value ≡ some (q.vals k)
    pub producer_ok : (i : ℕ) → ProducerOk q i (q.producer i)
    pub hidden :
        (i n k : ℕ) (v : A) → q.producer i ≡ made n v → q.pops ≤ k → k ≤ q.pushes → q.order k ≢ n
    pub alone : (i j n : ℕ) (v w : A) → q.producer i ≡ made n v → q.producer j ≡ made n w → i ≡ j

  init-Inv : (any : A) → Inv (init any)
  unfolding init
  init-Inv any = record {
    span = omega arith;
    tail_at = refl;
    head_at = refl;
    last = refl;
    link = λ k a b. ground arith;
    apart = λ j k a b c. ground arith;
    alive = λ k a b. ground arith;
    kept = λ k a b. ground arith;
    producer_ok = λ i. tt;
    hidden = λ i n k v e a b. ground arith;
    alone = λ i j n v w e. ground arith;
  }

  module _ {q : Queue A} (w : Inv q) where
    open w use {span, tail_at, head_at, last, link, apart, alive, kept, producer_ok, hidden, alone}

    -- A link is stored in a node that no other producer uses.
    ProducerOk-link :
        (i p n k : ℕ)
        → q.producer i ≡ linking p n k
        → (j : ℕ) (c : Producer A) → q.producer j ≡ c
        → (i == j) ≡ false
        → ProducerOk (record q { heap = update q.heap p (record (q.heap p) { next = some n }) }) j c
    ProducerOk-link i p n k e j idle h f = tt
    ProducerOk-link i p n k e j (made m u) h f =
        ground (arith, producer_ok i, producer_ok j, hidden j m k u)
    ProducerOk-link i p n k e j (linking p' n' k') h f =
        ground (arith, producer_ok i, producer_ok j, apart k k', apart k' k)

    -- The node that `pop` deletes is not the one that a producer is about to write.
    ProducerOk-pop :
        (b : ℕ)
        → (q.heap q.tail).next ≡ some b
        → (j : ℕ) (c : Producer A) → q.producer j ≡ c
        → ProducerOk
            (record q {
              heap = update q.heap q.tail (record (q.heap q.tail) { live = false });
              pops = suc q.pops;
            })
            j
            c
    ProducerOk-pop b e j idle h = tt
    ProducerOk-pop b e j (made m u) h =
        ground (arith, producer_ok j, tail_at, span, hidden j m q.pops u)
    ProducerOk-pop b e j (linking p n k) h = ground (arith, producer_ok j, tail_at)

    Step-Inv : {es : List (Event A)} {r : Queue A} → Step q es r → Inv r
    Step-Inv (push_new i v e) = record {
      span = span;
      tail_at = tail_at;
      head_at = head_at;
      last = ground (arith, last, alive q.pushes);
      link = λ k a b. ground (arith, link k a b, alive k);
      apart = apart;
      alive = λ k a b. ground (arith, alive k a b);
      kept = λ k a b. ground (arith, kept k a b, alive k);
      producer_ok = λ j. grind (arith, producer_ok j, alive);
      hidden = λ j n k u h a b. ground (arith, hidden j n k u, alive k a b);
      alone = λ j k n u x g h. ground (arith, alone j k n u x, producer_ok j, producer_ok k);
    }
    Step-Inv (push_exchange i n v e) = record {
      span = ground (arith, span);
      tail_at = ground (arith, span, tail_at);
      head_at = ground (arith, head_at);
      last = ground (arith, producer_ok i);
      link = λ k a b. ground (arith, head_at, last, link k a);
      apart = λ j k a b c. ground (arith, apart j k a b, hidden i n j v e a);
      alive = λ k a b. ground (arith, alive k a, producer_ok i);
      kept = λ k a b. ground (arith, kept k a, producer_ok i);
      producer_ok = λ j. ground (arith, producer_ok j, head_at, last, span);
      hidden = λ j m k u h a b. ground (arith, hidden j m k u, alone i j m v u);
      alone = λ j k m u x g h. ground (arith, alone j k m u x);
    }
    Step-Inv (push_link i p n k e) = record {
      span = span;
      tail_at = tail_at;
      head_at = head_at;
      last = ground (arith, last, producer_ok i, apart k q.pushes);
      link = λ m a b. ground (arith, link m a b, producer_ok i, apart m k, apart k m);
      apart = apart;
      alive = λ m a b. ground (arith, alive m a b);
      kept = λ m a b. ground (arith, kept m a b);
      producer_ok = λ j. elim (Bool-cases (i == j)) [
        | inl t ↦ rw t tt
        | inr f ↦ rw f (ProducerOk-link i p n k e j (q.producer j) refl f)
      ];
      hidden = λ j m l u h a b. ground (arith, hidden j m l u);
      alone = λ j l m u x g h. ground (arith, alone j l m u x);
    }
    Step-Inv (pop_some b e) = record {
      span = ground (arith, span, last, tail_at, link q.pops);
      tail_at = ground (arith, span, last, tail_at, link q.pops);
      head_at = head_at;
      last = ground (arith, last);
      link = λ k c d. ground (arith, link k);
      apart = λ j k c d f. apart j k (omega arith) d f;
      alive = λ k c d. ground (arith, alive k, tail_at, apart q.pops k);
      kept = λ k c d. ground (arith, kept k);
      producer_ok = λ j. ProducerOk-pop b e j (q.producer j) refl;
      hidden = λ j m k u h c d. hidden j m k u h (omega arith) d;
      alone = alone;
    }
    Step-Inv (pop_none e) = w

  pub Reach-Inv : {any : A} {es : List (Event A)} {q : Queue A} → Reach any es q → Inv q
  Reach-Inv {any} start = init-Inv any
  Reach-Inv (later r st) = Step-Inv (Reach-Inv r) st
