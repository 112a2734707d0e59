-- ===== src/Future.antt =====
-- `SharedState`, `Promise` and `Future` of src/core/future.h: the producer's `set_value` or
-- `set_exception` against the consumer's `then`, `get` or `wait_for`, one shared access at a time.
-- Future/Void is `Promise<void>` and `Future<void>`.
pub mod Protocol
pub mod Void
mod Tests
use forge_lock_free.Base.{
  ℕ, suc, ◌+◌, ◌≡◌, ◌≢◌, Bool, true, false, Option, none, some, List, [], ◌∷◌, ◌++◌, ltb,
  if◌then◌else◌,
}

-- What the promise is satisfied with.
pub data Outcome (A E : Type 0) : Type 0 where
  value : A → Outcome A E
  exception : E → Outcome A E

-- The continuation slot: null, the pointer that `then` made, or the sentinel.
pub data Slot : Type 0 where
  null cont sentinel : Slot

-- `value` is the storage (`none` before the placement-new).
pub record SharedState (A E : Type 0) : Type 0 where
  pub storage : Option A
  pub exception_ptr : Option E
  pub ready : Bool
  pub slot : Slot

-- The producer's place in `set_value` or `set_exception`; `prev` is what its exchange returned. After
-- `invoke_threw` the callback's exception has left `set_value`, before the delete.
pub data Producer (A E : Type 0) : Type 0 where
  unset : Producer A E
  stored : Outcome A E → Producer A E
  published : Outcome A E → Producer A E
  exchanged : Outcome A E → (prev : Slot) → Producer A E
  satisfied : Outcome A E → (prev : Slot) → Producer A E
  invoke_threw : Outcome A E → Producer A E

-- The consumer's place: before its call, in `then`, or after `then` or `get`. After `then_threw` the
-- callback's exception has left `then`.
pub data Consumer (A E : Type 0) : Type 0 where
  before : Consumer A E
  swapped : (prev : Slot) → Consumer A E
  restoring : Consumer A E
  chained : Consumer A E
  then_threw : Consumer A E
  got : Option (Outcome A E) → Consumer A E

-- `fired` lists the arguments of the callback's invocations (`none` would be storage that holds no
-- value), `deletes` counts the deletions of the continuation.
pub record State (A E : Type 0) : Type 0 where
  pub shared : SharedState A E
  pub open shared use *
  pub producer : Producer A E
  pub consumer : Consumer A E
  pub fired : List (Option A)
  pub deletes : ℕ

module _ {A E : Type 0} where
  pub init : State A E
  init = record {
    shared = record { storage = none; exception_ptr = none; ready = false; slot = null };
    producer = unset;
    consumer = before;
    fired = [];
    deletes = 0;
  }

  -- The placement-new of `set_value`, or the store of `exception_`.
  unfoldable pub fill : Outcome A E → SharedState A E → SharedState A E
  fill (value v) s = record s { storage = some v }
  fill (exception e) s = record s { exception_ptr = some e }

  -- What `set_value` or `set_exception` does with the continuation that its exchange returned,
  -- if the callback returns.
  unfoldable pub run_prev : Outcome A E → Slot → State A E → State A E
  run_prev (value v) cont s = record s {
    fired = s.fired ++ s.storage ∷ [];
    deletes = s.deletes + 1;
  }
  run_prev (exception e) cont s = record s { deletes = s.deletes + 1 }
  run_prev o null s = s
  run_prev o sentinel s = s

  -- What `then` does when its exchange returned the sentinel, if the callback returns.
  unfoldable pub run_cont : State A E → State A E
  run_cont s = record s {
    fired = elim s.exception_ptr [ none ↦ s.fired ++ s.storage ∷ [] | some e ↦ s.fired ];
    deletes = s.deletes + 1;
  }

  -- The end of `get` and `wait_for`: rethrow, or move the value out.
  unfoldable pub read : SharedState A E → Option (Outcome A E)
  read s = elim s.exception_ptr [
    | some e ↦ some (exception e)
    | none ↦ elim s.storage [ none ↦ none | some v ↦ some (value v) ]
  ]

  pub data Step (s : State A E) : State A E → Type 0 where
    write :
        (o : Outcome A E)
        → s.producer ≡ unset
        → Step s (record s { shared = fill o s.shared; producer = stored o })
    publish :
        (o : Outcome A E)
        → s.producer ≡ stored o
        → Step s (record s { shared = record s.shared { ready = true }; producer = published o })
    exchange :
        (o : Outcome A E)
        → s.producer ≡ published o
        → Step s (record s {
          shared = record s.shared { slot = sentinel };
          producer = exchanged o s.slot;
        })
    invoke :
        (o : Outcome A E) (prev : Slot)
        → s.producer ≡ exchanged o prev
        → Step s (record (run_prev o prev s) { producer = satisfied o prev })
    invoke_throws :
        (v : A)
        → s.producer ≡ exchanged (value v) cont
        → Step s (record s { fired = s.fired ++ s.storage ∷ []; producer = invoke_threw (value v) })
    then_exchange :
        s.consumer ≡ before
        → Step s (record s { shared = record s.shared { slot = cont }; consumer = swapped s.slot })
    then_early :
        (prev : Slot)
        → s.consumer ≡ swapped prev
        → prev ≢ sentinel
        → Step s (record s { consumer = chained })
    then_late :
        s.consumer ≡ swapped sentinel → Step s (record (run_cont s) { consumer = restoring })
    then_throws :
        s.consumer ≡ swapped sentinel
        → s.exception_ptr ≡ none
        → Step s (record s { fired = s.fired ++ s.storage ∷ []; consumer = then_threw })
    then_restore :
        s.consumer ≡ restoring
        → Step s (record s { shared = record s.shared { slot = sentinel }; consumer = chained })
    get :
        s.consumer ≡ before → s.ready ≡ true → Step s (record s { consumer = got (read s.shared) })
    wait_timeout : s.consumer ≡ before → s.ready ≡ false → Step s s

  pub data Reach : State A E → Type 0 where
    start : Reach init
    later : {s t : State A E} → Reach s → Step s t → Reach t

  -- `~SharedState`: the deletions in all once it has run.
  pub destroy : State A E → ℕ
  destroy s = elim s.slot [ cont ↦ s.deletes + 1 | _ ↦ s.deletes ]

-- `backoff` for a thread that finds no task to run: what it does by the rounds it has waited.
pub data Wait : Type 0 where
  ran_task spin yield : Wait
  sleep_us : ℕ → Wait

pub backoff : Bool → ℕ → Wait
backoff true iter = ran_task
backoff false iter =
    if ltb iter 4
    then spin
    else if ltb iter 16
    then yield
    else if ltb iter 64
    then sleep_us 1
    else sleep_us 100
