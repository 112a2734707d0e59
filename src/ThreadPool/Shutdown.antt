-- ===== src/ThreadPool/Shutdown.antt =====
-- What the destructor leaves.
use forge_lock_free.Base.{
  ℕ, zero, [], ◌∷◌, ◌++◌, suc, ◌<◌, ◌≡◌, ◌≢◌, refl, ap, ◌∙◌, true, false, Bool-cases, inl, inr, ltb,
  lt→ltb, ◌==◌, arith,
}
use forge_lock_free.Base.Family.{total}
use forge_lock_free.ThreadPool.{
  exited, Worker, Pool, gone, fresh, init, push_deque, push_submission, Step, work, steal,
  help_steals, submit_inside, submit_outside, notify, shut_down, joined, take_deque, next_deque,
  all_deques, take_submission, next_submission, shut, end_task, Reach, start, later,
}
use forge_lock_free.ThreadPool.Phases.{
  update-all, update-field, shutting, Inv, not_late, open-Inv, loop-open, update_queues-Ok,
}
use forge_lock_free.ThreadPool.Moves.{Ok, busy, Move-Ok, Move-loop}
use forge_lock_free.Base.Count.{count}
use forge_lock_free.ThreadPool.Conserve.{held, places, task_once}

Step-Inv : {s s' : Pool} → Step s s' → Inv s → Inv s'
unfolding push_deque push_submission
Step-Inv {s} {s'} (work w d v h m) i =
    open-Inv s' (loop-open w i h (Move-loop m (i.ok w)))
      (update-all Ok s.worker w v (Move-Ok m (i.ok w)) i.ok)
Step-Inv {s} {s'} (steal w j a u q h g d e f b p) i =
    let o = update_queues-Ok s.worker j q (s.worker j).submission i.ok in
    open-Inv s' (loop-open w i h (cc)) (update-all Ok _ w _ (record { helps = cc; left = cc }) o)
Step-Inv {s} {s'} (help_steals w j u q h g d e p) i =
    let o = update_queues-Ok s.worker j q (s.worker j).submission i.ok in
    let b : (s.worker w).loop ≢ exited = busy (i.ok w) (cc) in
    open-Inv s' (loop-open w i h b)
      (update-all Ok _ w _ (record { helps = λ _. refl; left = λ l. absurd (b l) }) o)
Step-Inv {s} {s'} (submit_inside w h e f) i =
    open-Inv s' (loop-open w i h (λ l. e ((i.ok w).left l)))
      (update_queues-Ok s.worker w (s.submitted ∷ (s.worker w).deque) (s.worker w).submission i.ok)
Step-Inv {s} {s'} (submit_outside w g e) i =
    let v = push_submission s.submitted (s.worker w) in
    record {
      ok =
          update_queues-Ok s.worker w (s.worker w).deque
            ((s.worker w).submission ++ s.submitted ∷ []) i.ok;
      all_exited = λ k u p. update-field (λ x. x.loop) s.worker w v refl u ∙ i.all_exited k u p;
      deques = λ u p q. update-field (λ x. x.deque) s.worker w v refl u ∙ i.deques u p q;
      submissions = λ l u p q.
          let z = not_late s.num_threads s.life g (omega (arith, l)) in
          absurd (omega (arith, z, q));
      rest = λ k. absurd (g k);
    }
Step-Inv notify i = record {
  ok = i.ok;
  all_exited = i.all_exited;
  deques = i.deques;
  submissions = i.submissions;
  rest = i.rest;
}
Step-Inv {s} {s'} (shut_down e) i = open-Inv s' refl i.ok
Step-Inv (joined e h) i = record {
  ok = i.ok;
  all_exited = λ k. h;
  deques = λ w p q. absurd (omega (arith, q));
  submissions = λ l w p q. absurd (omega (arith, q));
  rest = cc;
}
Step-Inv {s} (take_deque j u q e f h p) i =
    let v : Worker = record (s.worker j) { deque = q } in
    let x : shutting s.life ≡ true = rw e refl in
    record {
      ok = update_queues-Ok s.worker j q (s.worker j).submission i.ok;
      all_exited = λ _ w b. update-field (λ y. y.loop) s.worker j v refl w ∙ i.all_exited x w b;
      deques = λ w b c.
          let k : (j == w) ≡ false = let z : w < j = rw e at c in ground (arith, z) in
          rw k (i.deques w b c);
      submissions = λ l w b c. let z : w < 0 = rw e at c in absurd (omega (arith, z));
      rest = λ g. absurd cc;
    }
Step-Inv {s} (next_deque j e f h p) i =
    let x : shutting s.life ≡ true = rw e refl in
    record {
      ok = i.ok;
      all_exited = λ _. i.all_exited x;
      deques = λ w b c. elim (Bool-cases (ltb w j)) [
        | inl l ↦ i.deques w b (rw e (ground (arith, l)))
        | inr l ↦ let k : w ≡ j = ground (arith, l, c) in ap (λ y. (s.worker y).deque) k ∙ p
      ];
      submissions = λ l w b c. absurd (omega (arith, c));
      rest = λ g. absurd cc;
    }
Step-Inv {s} (all_deques e f) i =
    let x : shutting s.life ≡ true = rw e refl in
    record {
      ok = i.ok;
      all_exited = λ _. i.all_exited x;
      deques = λ w b c. i.deques w b (rw e b);
      submissions = λ l w b c. absurd (omega (arith, c));
      rest = λ g. absurd cc;
    }
Step-Inv {s} (take_submission j u q e f h p) i =
    let v : Worker = record (s.worker j) { submission = q } in
    let x : shutting s.life ≡ true = rw e refl in
    record {
      ok = update_queues-Ok s.worker j (s.worker j).deque q i.ok;
      all_exited = λ _ w b. update-field (λ y. y.loop) s.worker j v refl w ∙ i.all_exited x w b;
      deques = λ w b c. update-field (λ y. y.deque) s.worker j v refl w ∙ i.deques w b c;
      submissions = λ l w b c.
          let k : (j == w) ≡ false = let z : w < j = rw e at c in ground (arith, z) in
          rw k (i.submissions l w b c);
      rest = λ g. absurd cc;
    }
Step-Inv {s} (next_submission j e f h p) i =
    let x : shutting s.life ≡ true = rw e refl in
    record {
      ok = i.ok;
      all_exited = λ _. i.all_exited x;
      deques = λ w b c. i.deques w b (rw e c);
      submissions = λ z w b c. elim (Bool-cases (ltb w j)) [
        | inl l ↦ i.submissions z w b (rw e (ground (arith, l)))
        | inr l ↦ let k : w ≡ j = ground (arith, l, c) in ap (λ y. (s.worker y).submission) k ∙ p
      ];
      rest = λ g. absurd cc;
    }
Step-Inv {s} (shut e f) i =
    let x : shutting s.life ≡ true = rw e refl in
    record {
      ok = i.ok;
      all_exited = λ _. i.all_exited x;
      deques = λ w b c. i.deques w b (rw e c);
      submissions = λ z w b c. i.submissions z w b (rw e c);
      rest = λ _. f;
    }
Step-Inv (end_task u e) i = record {
  ok = i.ok;
  all_exited = i.all_exited;
  deques = i.deques;
  submissions = i.submissions;
  rest = λ _. refl;
}

Reach-Inv : {hw n : ℕ} {s : Pool} → Reach hw n s → Inv s
unfolding init fresh
Reach-Inv start = open-Inv _ refl (λ w. record { helps = λ _. refl; left = cc })
Reach-Inv (later r st) = Step-Inv st (Reach-Inv r)

total-zero :
    (t n : ℕ) (f : ℕ → Worker) → ((w : ℕ) → w < n → held t (f w) ≡ 0) → total (held t) n f ≡ 0
total-zero t zero f h = refl
total-zero t (suc n) f h =
    omega (arith, h n (omega arith), total-zero t n f (λ w l. h w (omega arith)))

-- When the destructor has returned, and nothing was submitted while it drained the submission queues,
-- then every task that was ever submitted has been run, and run once.
pub shutdown_complete :
    {hw n : ℕ} {s : Pool} (t : ℕ)
    → Reach hw n s
    → s.life ≡ gone
    → s.late ≡ 0
    → t < s.submitted
    → count t s.finished ≡ 1
shutdown_complete {s} t r e l h =
    let i = Reach-Inv r in
    let x : shutting s.life ≡ true = rw e refl in
    let empty : (w : ℕ) → w < s.num_threads → held t (s.worker w) ≡ 0 = λ w b.
      let d = ap (count t) (i.deques w b (rw e b)) in
      let q = ap (count t) (i.submissions l w b (rw e b)) in
      let k = ap (count t) ((i.ok w).left (i.all_exited x w b)) in omega (arith, d, q, k) in
    let z = total-zero t s.num_threads s.worker empty in
    let k = ap (count t) (i.rest e) in
    let m : places t s ≡ 1 = task_once t r ∙ rw (lt→ltb t s.submitted h) refl in
    omega (arith, z, k, m)
