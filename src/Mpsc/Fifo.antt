-- ===== src/Mpsc/Fifo.antt =====
-- The queue against a list, and the nodes that its accesses touch.
use mathlib.Core.List.{append-nil, append_assoc}
use forge_lock_free.Base.{
  ℕ, suc, ◌≤◌, ◌<◌, ◌≡◌, refl, sym, ap, ◌∙◌, Bool, true, false, none, some, List, [], ◌∷◌, ◌++◌,
  arith, between, between_empty, between_first, between_last, between-ext, update, dec_lt,
}
use forge_lock_free.Base.Trace.{Replays, Replays-append}
use forge_lock_free.Mpsc.{
  idle, linking, Event, enqueued, dequeued, Queue, init, Step, push_new, push_exchange, push_link,
  pop_some, pop_none, is_empty, Reach, start, later,
}
use forge_lock_free.Mpsc.Invariant.{Inv, Reach-Inv}

module _ {A : Type 0} where
  -- The values whose exchange is done and which no `pop` has returned, oldest first.
  pub contents : Queue A → List A
  contents q = between q.vals (suc q.pops) (suc q.pushes)

  -- What one call may do to the list.
  abbrev pub Allows : List A → Event A → List A → Type 0
  Allows l (enqueued v) m = m ≡ l ++ v ∷ []
  Allows l (dequeued (some v)) m = l ≡ v ∷ m
  Allows l (dequeued none) m = m ≡ l

  contents-exchange :
      (q : Queue A) (v : A)
      → q.pops ≤ q.pushes
      → between (update q.vals (suc q.pushes) v) (suc q.pops) (suc (suc q.pushes))
        ≡ contents q ++ v ∷ []
  unfolding contents
  contents-exchange q v h =
      between_last (update q.vals (suc q.pushes) v) (suc q.pops) (suc q.pushes) (omega arith)
      ∙ ground (
        arith,
        between-ext (update q.vals (suc q.pushes) v) q.vals (suc q.pops) (suc q.pushes)
            (λ k a b. ground arith),
      )

  contents-first :
      (q : Queue A)
      → q.pops < q.pushes
      → contents q ≡ q.vals (suc q.pops) ∷ between q.vals (suc (suc q.pops)) (suc q.pushes)
  unfolding contents
  contents-first q h = ground (arith, between_first q.vals (suc q.pops) (suc q.pushes))

  contents-none : (q : Queue A) → q.pushes ≤ q.pops → contents q ≡ []
  unfolding contents
  contents-none q h = between_empty q.vals (suc q.pops) (suc q.pushes) (omega arith)

  module _ {q : Queue A} (w : Inv q) where
    open w use {span, tail_at, last, link, kept}

    -- A link that `pop` finds leads to the next node in the order of the exchanges.
    pop-next :
        (b : ℕ)
        → (q.heap q.tail).next ≡ some b
        → (q.pops < q.pushes) × ((q.heap b).value ≡ some (q.vals (suc q.pops)))
    pop-next b e = (
      ground (arith, span, last, tail_at),
      ground (arith, span, last, tail_at, link q.pops, kept (suc q.pops)),
    )

    Step-Replays :
        {es : List (Event A)} {r : Queue A}
        → Step q es r
        → Replays Allows (contents q) es (contents r)
    Step-Replays (push_new i v e) = unfold contents in refl
    Step-Replays {r} (push_exchange i n v e) =
        (contents r, (unfold contents in contents-exchange q v span), refl)
    Step-Replays (push_link i p n k e) = unfold contents in refl
    Step-Replays {r} (pop_some b e) =
        let (lt, val) = pop-next b e in
        (contents r, rw val (unfold contents in contents-first q lt), refl)
    Step-Replays (pop_none e) = (contents q, refl, refl)

  -- Whatever the interleaving, the calls are those of a list: `push` appends at its exchange, and a
  -- `pop` that returns a value removes and returns the oldest.
  Reach-Replays :
      {any : A} {es : List (Event A)} {q : Queue A}
      → Reach any es q
      → Replays Allows [] es (contents q)
  Reach-Replays {any} start = sym (init-contents any)
    where
      init-contents : (x : A) → contents (init x) ≡ []
      init-contents x = unfold contents init in between_empty (λ _. x) 1 1 (omega arith)
  Reach-Replays (later {es} {fs} {q} {r} rq st) =
      Replays-append Allows [] (contents q) (contents r) es fs (Reach-Replays rq)
        (Step-Replays (Reach-Inv rq) st)

  unfoldable pub ins : List (Event A) → List A
  ins [] = []
  ins (enqueued v ∷ es) = v ∷ ins es
  ins (dequeued o ∷ es) = ins es

  unfoldable pub outs : List (Event A) → List A
  outs [] = []
  outs (enqueued v ∷ es) = outs es
  outs (dequeued none ∷ es) = outs es
  outs (dequeued (some v) ∷ es) = v ∷ outs es

  Replays-order :
      (l m : List A) (es : List (Event A)) → Replays Allows l es m → l ++ ins es ≡ outs es ++ m
  unfolding ins outs
  Replays-order l m [] h = rw append-nil h
  Replays-order l m (enqueued v ∷ es) (k, a, h) =
      sym (append_assoc l (v ∷ []) (ins es))
      ∙ ap (λ x. x ++ ins es) (sym a)
      ∙ Replays-order k m es h
  Replays-order l m (dequeued none ∷ es) (k, a, h) = rw (← a) (Replays-order k m es h)
  Replays-order l m (dequeued (some v) ∷ es) (k, a, h) =
      rw a (ap (λ x. v ∷ x) (Replays-order k m es h))

  -- At every moment the values pushed so far, in the order of the exchanges, are the values popped so
  -- far, in the order of the pops, followed by those still in the queue: the queue is first in, first
  -- out, and loses and repeats nothing, however the producers interleave with the consumer.
  pub fifo :
      {any : A} {es : List (Event A)} {q : Queue A}
      → Reach any es q
      → ins es ≡ outs es ++ contents q
  fifo {es} {q} r = Replays-order [] (contents q) es (Reach-Replays r)

  -- The nodes that the accesses of a state dereference: the predecessor that a producer is about to
  -- link, the node that the consumer reads the link of and then deletes, and the next one, whose value
  -- it takes.
  pub data Touched (q : Queue A) : ℕ → Type 0 where
    predecessor : (i p n k : ℕ) → q.producer i ≡ linking p n k → Touched q p
    consumed : Touched q q.tail
    successor : (b : ℕ) → (q.heap q.tail).next ≡ some b → Touched q b

  Touched-live : {q : Queue A} {p : ℕ} → Inv q → Touched q p → (q.heap p).live ≡ true
  Touched-live w (predecessor i p n k e) = ground (arith, e, w.producer_ok i, w.alive k)
  Touched-live {q} w consumed = ground (arith, w.alive q.pops, w.span, w.tail_at)
  Touched-live {q} w (successor b e) =
      let (lt, val) = pop-next w b e in
      ground (arith, lt, e, w.tail_at, w.link q.pops, w.alive (suc q.pops))

  -- Whatever the interleaving, a node that an access of `push` after its exchange, of `pop` or of `empty`
  -- dereferences has not been deleted: the predecessor that a producer is about to link, the consumer's
  -- node, and the node behind it.
  pub no_dangling :
      {any : A} {es : List (Event A)} {q : Queue A} {p : ℕ}
      → Reach any es q
      → Touched q p
      → (q.heap p).live ≡ true
  no_dangling r t = Touched-live (Reach-Inv r) t

  pub null : List A → Bool
  null [] = true
  null (x ∷ xs) = false

  -- While no producer is inside `push`, `empty` says exactly whether the queue holds no value, so
  -- `pop` then returns a value whenever there is one.
  pub empty_exact :
      {any : A} {es : List (Event A)} {q : Queue A}
      → Reach any es q
      → ((i : ℕ) → q.producer i ≡ idle)
      → is_empty q ≡ null (contents q)
  unfolding is_empty null
  empty_exact {q} r quiet =
      let w = Reach-Inv r in
      elim (dec_lt q.pops q.pushes) [
        | yes h ↦
            rw (contents-first q h)
              (ground (arith, w.tail_at, w.link q.pops, quiet (q.linker q.pops)))
        | no h ↦ rw (contents-none q (omega arith)) (ground (arith, w.tail_at, w.span, w.last))
      ]
