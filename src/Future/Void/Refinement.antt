-- ===== src/Future/Void/Refinement.antt =====
-- The future without a value behaves as the one with a value of the type with one element.
use forge_lock_free.Base.{
  ◌≡◌, ◌∙◌, sym, ap, refl, true, some, [], ◌∷◌, length, length-append, Option-cases, inl, inr,
  arith,
}
use forge_lock_free.Future.{
  Outcome, value, exception, Slot, null, cont, sentinel, Producer, unset, stored, published,
  exchanged, satisfied, Consumer, before, swapped, restoring, chained, got, fill,
}
use forge_lock_free.Future as F
use forge_lock_free.Future.Protocol.{ready-storage, answers, fires_once}
use forge_lock_free.Future.Void.{
  State, init, run_prev, run_cont, read, Step, set_value, set_exception, publish, exchange, invoke,
  invoke_throws, then_throws, then_exchange, then_early, then_late, then_restore, get, wait_timeout,
  Reach, start, later,
}

module _ {E : Type 0} where
  -- The same state but for the storage; the invocations are counted.
  abbrev pub Sim : State E → F.State (Unit {0}) E → Type 0
  Sim v s =
      (v.exception_ptr ≡ s.exception_ptr)
      × (v.ready ≡ s.ready)
      × (v.slot ≡ s.slot)
      × (v.producer ≡ s.producer)
      × (v.consumer ≡ s.consumer)
      × (v.fired ≡ length s.fired)
      × (v.deletes ≡ s.deletes)

  abbrev pub Simulated : State E → Type 0
  Simulated v = (s : F.State (Unit {0}) E) × F.Reach s × Sim v s

  run_prev-Sim :
      (o : Outcome (Unit {0}) E) (prev : Slot) (v : State E) (s : F.State (Unit {0}) E)
      → Sim v s
      → Sim
          (record (run_prev o prev v) { producer = satisfied o prev })
          (record (F.run_prev o prev s) { producer = satisfied o prev })
  unfolding run_prev F.run_prev
  run_prev-Sim (value a) cont v s (x, r, l, p, c, f, d) =
      (x, r, l, refl, c, omega (arith, f, length-append s.fired (s.storage ∷ [])), omega (arith, d))
  run_prev-Sim (exception e) cont v s (x, r, l, p, c, f, d) =
      (x, r, l, refl, c, f, omega (arith, d))
  run_prev-Sim (value a) null v s (x, r, l, p, c, f, d) = (x, r, l, refl, c, f, d)
  run_prev-Sim (value a) sentinel v s (x, r, l, p, c, f, d) = (x, r, l, refl, c, f, d)
  run_prev-Sim (exception e) null v s (x, r, l, p, c, f, d) = (x, r, l, refl, c, f, d)
  run_prev-Sim (exception e) sentinel v s (x, r, l, p, c, f, d) = (x, r, l, refl, c, f, d)

  run_cont-Sim :
      (v : State E) (s : F.State (Unit {0}) E)
      → Sim v s
      → Sim
          (record (run_cont v) { consumer = restoring })
          (record (F.run_cont s) { consumer = restoring })
  unfolding run_cont F.run_cont
  run_cont-Sim v s (x, r, l, p, c, f, d) = elim (Option-cases s.exception_ptr) [
    | inl e ↦ ground (arith, e, x, r, l, p, f, d, length-append s.fired (s.storage ∷ []))
    | inr (y, e) ↦ ground (arith, e, x, r, l, p, f, d)
  ]

  read-Sim :
      (v : State E) (s : F.State (Unit {0}) E)
      → F.Reach s
      → Sim v s
      → v.ready ≡ true
      → some (read v.shared) ≡ F.read s.shared
  unfolding read F.read
  read-Sim v s k (x, r, l, p, c, f, d) h = elim (Option-cases s.exception_ptr) [
    | inr (y, e) ↦ ground (arith, e, x)
    | inl e ↦ elim (Option-cases s.storage) [
      | inl z ↦ absurd (ready-storage k (sym r ∙ h) e z)
      | inr (tt, z) ↦ ground (arith, e, x, z)
    ]
  ]

  Step-Sim : {v w : State E} → Step v w → Simulated v → Simulated w
  unfolding fill
  Step-Sim (set_value h) (s, k, (x, r, l, p, c, f, d)) = (
    _,
    F.later (F.later k (F.write (value tt) (sym p ∙ h))) (F.publish (value tt) refl),
    (x, refl, l, refl, c, f, d),
  )
  Step-Sim (set_exception e h) (s, k, (x, r, l, p, c, f, d)) =
      (_, F.later k (F.write (exception e) (sym p ∙ h)), (refl, r, l, refl, c, f, d))
  Step-Sim (publish e h) (s, k, (x, r, l, p, c, f, d)) =
      (_, F.later k (F.publish (exception e) (sym p ∙ h)), (x, refl, l, refl, c, f, d))
  Step-Sim (exchange o h) (s, k, (x, r, l, p, c, f, d)) =
      (_, F.later k (F.exchange o (sym p ∙ h)), (x, r, refl, ap (exchanged o) l, c, f, d))
  Step-Sim {v} (invoke o prev h) (s, k, (x, r, l, p, c, f, d)) =
      (_, F.later k (F.invoke o prev (sym p ∙ h)), run_prev-Sim o prev v s (x, r, l, p, c, f, d))
  Step-Sim (invoke_throws h) (s, k, (x, r, l, p, c, f, d)) = (
    _,
    F.later k (F.invoke_throws tt (sym p ∙ h)),
    (x, r, l, refl, c, omega (arith, f, length-append s.fired (s.storage ∷ [])), d),
  )
  Step-Sim (then_exchange h) (s, k, (x, r, l, p, c, f, d)) =
      (_, F.later k (F.then_exchange (sym c ∙ h)), (x, r, refl, p, ap swapped l, f, d))
  Step-Sim (then_early prev h n) (s, k, (x, r, l, p, c, f, d)) =
      (_, F.later k (F.then_early prev (sym c ∙ h) n), (x, r, l, p, refl, f, d))
  Step-Sim {v} (then_late h) (s, k, (x, r, l, p, c, f, d)) =
      (_, F.later k (F.then_late (sym c ∙ h)), run_cont-Sim v s (x, r, l, p, c, f, d))
  Step-Sim (then_throws h e) (s, k, (x, r, l, p, c, f, d)) = (
    _,
    F.later k (F.then_throws (sym c ∙ h) (sym x ∙ e)),
    (x, r, l, p, refl, omega (arith, f, length-append s.fired (s.storage ∷ [])), d),
  )
  Step-Sim (then_restore h) (s, k, (x, r, l, p, c, f, d)) =
      (_, F.later k (F.then_restore (sym c ∙ h)), (x, r, refl, p, refl, f, d))
  Step-Sim {v} (get h g) (s, k, (x, r, l, p, c, f, d)) = (
    _,
    F.later k (F.get (sym c ∙ h) (sym r ∙ g)),
    (x, r, l, p, ap got (read-Sim v s k (x, r, l, p, c, f, d) g), f, d),
  )
  Step-Sim (wait_timeout h g) m = m

  -- Every state that a future without a value reaches is one that the future with a value of the type
  -- with one element reaches, but for the storage.
  pub void_refines : {v : State E} → Reach v → Simulated v
  unfolding init F.init
  void_refines start = (F.init, F.start, (refl, refl, refl, refl, refl, refl, refl))
  void_refines (later r st) = Step-Sim st (void_refines r)

  -- So a continuation without a value fires once when a value is set, and never on an exception, and is
  -- deleted once.
  void_fires_once :
      {v : State E} {o : Outcome (Unit {0}) E} {prev : Slot}
      → Reach v
      → v.producer ≡ satisfied o prev
      → v.consumer ≡ chained
      → (v.fired ≡ length (answers o)) × (v.deletes ≡ 1)
  void_fires_once r p c =
      let (s, k, (x, y, l, q, z, f, d)) = void_refines r in
      let (a, b, e) = fires_once k (sym q ∙ p) (sym z ∙ c) in (f ∙ ap length a, d ∙ b)
