-- ===== src/Future/Protocol.antt =====
-- The continuation fires exactly once, whichever side comes first, and is freed exactly once.
use forge_lock_free.Base.{
  ℕ, ◌≡◌, ◌≢◌, ◌&&◌, refl, Bool, true, false, Option, none, some, List, [], ◌∷◌, arith,
}
use forge_lock_free.Future.{
  Outcome, value, exception, Slot, null, cont, sentinel, SharedState, Producer, unset, stored,
  published, exchanged, satisfied, invoke_threw, Consumer, before, swapped, restoring, chained,
  then_threw, got, State, init, fill, run_prev, run_cont, read, Step, write, publish, exchange,
  invoke, invoke_throws, then_throws, then_exchange, then_early, then_late, then_restore, get,
  wait_timeout, Reach, start, later, destroy,
}

abbrev Tally : Type 0 → Type 0
Tally A = Slot × List (Option A) × ℕ

module _ {A E : Type 0} where
  -- The invocations that an outcome asks for.
  abbrev pub answers : Outcome A E → List (Option A)
  answers (value v) = some v ∷ []
  answers (exception e) = []

  -- The fields that the producer writes, by its place.
  abbrev pub Holds : Outcome A E → SharedState A E → Type 0
  Holds (value v) s = (s.storage ≡ some v) × (s.exception_ptr ≡ none)
  Holds (exception e) s = (s.storage ≡ none) × (s.exception_ptr ≡ some e)

  abbrev pub Filled : Producer A E → SharedState A E → Type 0
  Filled unset s = (s.storage ≡ none) × (s.exception_ptr ≡ none) × (s.ready ≡ false)
  Filled (stored o) s = Holds o s × (s.ready ≡ false)
  Filled (published o) s = Holds o s × (s.ready ≡ true)
  Filled (exchanged o prev) s = Holds o s × (s.ready ≡ true)
  Filled (satisfied o prev) s = Holds o s × (s.ready ≡ true)
  Filled (invoke_threw o) s = Holds o s × (s.ready ≡ true)

  -- The slot, the invocations and the deletions, by the two places; `none` cannot happen.
  waiting : Consumer A E → Option (Tally A)
  waiting before = some (null, [], 0)
  waiting (got _) = some (null, [], 0)
  waiting (swapped null) = some (cont, [], 0)
  waiting chained = some (cont, [], 0)
  waiting _ = none

  taken : List (Option A) → ℕ → Consumer A E → Option (Tally A)
  taken f n (swapped null) = some (sentinel, f, n)
  taken f n chained = some (sentinel, f, n)
  taken f n _ = none

  left : Outcome A E → Consumer A E → Option (Tally A)
  left o before = some (sentinel, [], 0)
  left o (got _) = some (sentinel, [], 0)
  left o (swapped sentinel) = some (cont, [], 0)
  left o then_threw = some (cont, answers o, 0)
  left o restoring = some (cont, answers o, 1)
  left o chained = some (sentinel, answers o, 1)
  left o _ = none

  tally : Producer A E → Consumer A E → Option (Tally A)
  unfolding waiting taken left
  tally unset c = waiting c
  tally (stored o) c = waiting c
  tally (published o) c = waiting c
  tally (exchanged o null) c = left o c
  tally (exchanged o cont) c = taken [] 0 c
  tally (satisfied o null) c = left o c
  tally (satisfied o cont) c = taken (answers o) 1 c
  tally (invoke_threw o) c = taken (answers o) 0 c
  tally _ c = none

  -- What `get` has returned.
  abbrev Reads : Producer A E → Consumer A E → Type 0
  Reads (published o) (got r) = r ≡ some o
  Reads (exchanged o prev) (got r) = r ≡ some o
  Reads (satisfied o prev) (got r) = r ≡ some o
  Reads (invoke_threw o) (got r) = r ≡ some o
  Reads _ (got r) = ⊥
  Reads _ _ = Unit

  record Inv (s : State A E) : Type 0 where
    filled : Filled s.producer s.shared
    tallied : tally s.producer s.consumer ≡ some (s.slot, s.fired, s.deletes)
    reads : Reads s.producer s.consumer

  -- The premises of a step, for the catch-all clauses below, which cannot name them.
  abbrev Guard : {s t : State A E} → Step s t → Type 0
  Guard {s} (write o h) = s.producer ≡ unset
  Guard {s} (publish o h) = s.producer ≡ stored o
  Guard {s} (exchange o h) = s.producer ≡ published o
  Guard {s} (invoke o prev h) = s.producer ≡ exchanged o prev
  Guard {s} (invoke_throws v h) = s.producer ≡ exchanged (value v) cont
  Guard {s} (then_throws h e) = (s.consumer ≡ swapped sentinel) × (s.exception_ptr ≡ none)
  Guard {s} (then_exchange h) = s.consumer ≡ before
  Guard {s} (then_early prev h n) = (s.consumer ≡ swapped prev) × (prev ≢ sentinel)
  Guard {s} (then_late h) = s.consumer ≡ swapped sentinel
  Guard {s} (then_restore h) = s.consumer ≡ restoring
  Guard {s} (get h r) = (s.consumer ≡ before) × (s.ready ≡ true)
  Guard (wait_timeout h r) = Unit

  guard : {s t : State A E} (st : Step s t) → Guard st
  guard (write o h) = h
  guard (publish o h) = h
  guard (exchange o h) = h
  guard (invoke o prev h) = h
  guard (invoke_throws v h) = h
  guard (then_throws h e) = (h, e)
  guard (then_exchange h) = h
  guard (then_early prev h n) = (h, n)
  guard (then_late h) = h
  guard (then_restore h) = h
  guard (get h r) = (h, r)
  guard (wait_timeout h r) = tt

  Step-Filled : {s t : State A E} → Step s t → Inv s → Filled t.producer t.shared
  unfolding fill run_prev run_cont
  Step-Filled (write o h) v = ground (arith, v.filled)
  Step-Filled st v = ground (arith, guard st, v.filled)

  Step-tally :
      {s t : State A E}
      → Step s t
      → Inv s
      → tally t.producer t.consumer ≡ some (t.slot, t.fired, t.deletes)
  unfolding fill run_prev run_cont tally
  Step-tally (write o h) v = ground (arith, v.tallied)
  Step-tally st v = ground (arith, guard st, v.filled, v.tallied)

  Step-Reads : {s t : State A E} → Step s t → Inv s → Reads t.producer t.consumer
  unfolding fill run_prev run_cont read
  Step-Reads (write o h) v = ground (arith, v.reads)
  Step-Reads st v = ground (arith, guard st, v.filled, v.reads)

  Reach-Inv : {s : State A E} → Reach s → Inv s
  unfolding init tally
  Reach-Inv start = record { filled = (refl, refl, refl); tallied = refl; reads = tt }
  Reach-Inv (later r st) =
      let v = Reach-Inv r in
      record { filled = Step-Filled st v; tallied = Step-tally st v; reads = Step-Reads st v }

  -- When a call of `set_value` or `set_exception` and a call of `then` have both returned, whichever came
  -- first, the callback has been invoked exactly once with the value that was set, or never if it was
  -- an exception; the continuation has been deleted exactly once, and the destructor deletes nothing.
  pub fires_once :
      {s : State A E} {o : Outcome A E} {prev : Slot}
      → Reach s
      → s.producer ≡ satisfied o prev
      → s.consumer ≡ chained
      → (s.fired ≡ answers o) × (s.deletes ≡ 1) × (destroy s ≡ 1)
  unfolding tally destroy
  fires_once r p c = ground (arith, (Reach-Inv r).tallied)

  -- What the producer has been asked to set.
  abbrev pub set_to : Producer A E → Option (Outcome A E)
  set_to unset = none
  set_to (stored o) = some o
  set_to (published o) = some o
  set_to (exchanged o prev) = some o
  set_to (satisfied o prev) = some o
  set_to (invoke_threw o) = some o

  -- A `get` that returns gives what the producer set: the value, or the exception to rethrow. In
  -- particular it never reads storage that has not been written.
  pub get_outcome :
      {s : State A E} {r : Option (Outcome A E)}
      → Reach s
      → s.consumer ≡ got r
      → (r ≡ set_to s.producer) × (r ≢ none)
  get_outcome r c = let v = Reach-Inv r in (ground (arith, v.reads), ground (arith, v.reads))

  -- A state that is ready has a value, if it has no exception.
  pub ready-storage :
      {s : State A E} → Reach s → s.ready ≡ true → s.exception_ptr ≡ none → s.storage ≢ none
  ready-storage {s} r h e = stored_value s.producer (Reach-Inv r).filled
    where
      stored_value : (p : Producer A E) → Filled p s.shared → s.storage ≢ none
      stored_value unset f = ground (arith, f, h)
      stored_value (stored o) f = ground (arith, f, h)
      stored_value (published (value a)) f = ground (arith, f)
      stored_value (published (exception x)) f = ground (arith, f, e)
      stored_value (exchanged (value a) prev) f = ground (arith, f)
      stored_value (exchanged (exception x) prev) f = ground (arith, f, e)
      stored_value (satisfied (value a) prev) f = ground (arith, f)
      stored_value (satisfied (exception x) prev) f = ground (arith, f, e)
      stored_value (invoke_threw (value a)) f = ground (arith, f)
      stored_value (invoke_threw (exception x)) f = ground (arith, f, e)

  -- Neither side is inside a call, and the producer's has returned, so both may have dropped the shared
  -- state.
  producer_rests : Producer A E → Bool
  producer_rests unset = true
  producer_rests (satisfied o prev) = true
  producer_rests _ = false

  consumer_rests : Consumer A E → Bool
  consumer_rests (swapped prev) = false
  consumer_rests restoring = false
  consumer_rests _ = true

  unfoldable pub droppable : Producer A E → Consumer A E → Bool
  unfolding producer_rests consumer_rests
  droppable p c = producer_rests p && consumer_rests c

  -- The continuations that `then` has made.
  pub made : Consumer A E → ℕ
  made before = 0
  made (got r) = 0
  made _ = 1

  -- Once the destructor has run, while neither side is inside a call and no callback has thrown out of
  -- `set_value`, the continuation
  -- has been deleted exactly once if `then` was called, and nothing has been deleted if it was not.
  pub destroy_exact :
      {s : State A E}
      → Reach s
      → droppable s.producer s.consumer ≡ true
      → destroy s ≡ made s.consumer
  unfolding tally destroy droppable made
  destroy_exact r h = ground (arith, (Reach-Inv r).tallied)

  -- Where the callback has thrown out of `set_value`, `then` has made a continuation, and nothing deletes
  -- it, the destructor included.
  threw_leaks :
      {s : State A E} {o : Outcome A E}
      → Reach s
      → s.producer ≡ invoke_threw o
      → (destroy s ≡ 0) × (made s.consumer ≡ 1)
  unfolding tally destroy taken made
  threw_leaks r p = ground (arith, (Reach-Inv r).tallied)
