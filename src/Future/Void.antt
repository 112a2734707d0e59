-- ===== src/Future/Void.antt =====
-- The specialisations for void of src/core/future.h: a state without storage. A place of the producer
-- with a value is one with `value tt`, and `set_value` begins with the store of `ready_`.
pub mod Refinement
use forge_lock_free.Base.{ℕ, ◌+◌, ◌≡◌, ◌≢◌, Bool, true, false, Option, none, some}
use forge_lock_free.Future.{
  Outcome, value, exception, Slot, null, cont, sentinel, Producer, unset, stored, published,
  exchanged, satisfied, invoke_threw, Consumer, before, swapped, restoring, chained, then_threw,
  got,
}

pub record SharedState (E : Type 0) : Type 0 where
  pub exception_ptr : Option E
  pub ready : Bool
  pub slot : Slot

pub record State (E : Type 0) : Type 0 where
  pub shared : SharedState E
  pub open shared use *
  pub producer : Producer (Unit {0}) E
  pub consumer : Consumer (Unit {0}) E
  pub fired : ℕ
  pub deletes : ℕ

module _ {E : Type 0} where
  unfoldable pub init : State E
  init = record {
    shared = record { exception_ptr = none; ready = false; slot = null };
    producer = unset;
    consumer = before;
    fired = 0;
    deletes = 0;
  }

  -- What `set_value` or `set_exception` does with the continuation that its exchange returned,
  -- if the callback returns.
  unfoldable pub run_prev : Outcome (Unit {0}) E → Slot → State E → State E
  run_prev (value v) cont s = record s { fired = s.fired + 1; deletes = s.deletes + 1 }
  run_prev (exception e) cont s = record s { deletes = s.deletes + 1 }
  run_prev o null s = s
  run_prev o sentinel s = s

  -- What `then` does when its exchange returned the sentinel, if the callback returns.
  unfoldable pub run_cont : State E → State E
  run_cont s = record s {
    fired = elim s.exception_ptr [ none ↦ s.fired + 1 | some e ↦ s.fired ];
    deletes = s.deletes + 1;
  }

  -- The end of `get` and `wait_for`.
  unfoldable pub read : SharedState E → Outcome (Unit {0}) E
  read s = elim s.exception_ptr [ some e ↦ exception e | none ↦ value tt ]

  pub data Step (s : State E) : State E → Type 0 where
    set_value :
        s.producer ≡ unset
        → Step s (record s {
          shared = record s.shared { ready = true };
          producer = published (value tt);
        })
    set_exception :
        (e : E)
        → s.producer ≡ unset
        → Step s (record s {
          shared = record s.shared { exception_ptr = some e };
          producer = stored (exception e);
        })
    publish :
        (e : E)
        → s.producer ≡ stored (exception e)
        → Step s (record s {
          shared = record s.shared { ready = true };
          producer = published (exception e);
        })
    exchange :
        (o : Outcome (Unit {0}) E)
        → s.producer ≡ published o
        → Step s (record s {
          shared = record s.shared { slot = sentinel };
          producer = exchanged o s.slot;
        })
    invoke :
        (o : Outcome (Unit {0}) E) (prev : Slot)
        → s.producer ≡ exchanged o prev
        → Step s (record (run_prev o prev s) { producer = satisfied o prev })
    invoke_throws :
        s.producer ≡ exchanged (value tt) cont
        → Step s (record s { fired = s.fired + 1; producer = invoke_threw (value tt) })
    then_exchange :
        s.consumer ≡ before
        → Step s (record s { shared = record s.shared { slot = cont }; consumer = swapped s.slot })
    then_early :
        (prev : Slot)
        → s.consumer ≡ swapped prev
        → prev ≢ sentinel
        → Step s (record s { consumer = chained })
    then_late :
        s.consumer ≡ swapped sentinel → Step s (record (run_cont s) { consumer = restoring })
    then_throws :
        s.consumer ≡ swapped sentinel
        → s.exception_ptr ≡ none
        → Step s (record s { fired = s.fired + 1; consumer = then_threw })
    then_restore :
        s.consumer ≡ restoring
        → Step s (record s { shared = record s.shared { slot = sentinel }; consumer = chained })
    get :
        s.consumer ≡ before
        → s.ready ≡ true
        → Step s (record s { consumer = got (some (read s.shared)) })
    wait_timeout : s.consumer ≡ before → s.ready ≡ false → Step s s

  pub data Reach : State E → Type 0 where
    start : Reach init
    later : {s t : State E} → Reach s → Step s t → Reach t
