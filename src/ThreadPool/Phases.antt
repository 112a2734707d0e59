-- ===== src/ThreadPool/Phases.antt =====
-- What is known of the queues in each phase of the destructor.
use forge_lock_free.Base.{
  ℕ, ◌<◌, ◌≡◌, ◌≢◌, refl, ap, ◌∙◌, List, Bool, true, false, Bool-cases, inl, inr, [], ◌==◌, update,
  arith,
}
use forge_lock_free.ThreadPool.{
  exited, Worker, Pool, Life, alive, joining, gone, draining_deques, draining_submissions, lateness,
}
use forge_lock_free.ThreadPool.Moves.{Ok}

pub update-all :
    (P : Worker → Type 0) (f : ℕ → Worker) (w : ℕ) (v : Worker)
    → P v
    → ((u : ℕ) → P (f u))
    → (u : ℕ) → P (update f w v u)
update-all P f w v h k u = elim (Bool-cases (w == u)) [ inl e ↦ rw e h | inr e ↦ rw e (k u) ]

-- A field that the new value of one worker keeps.
pub update-field :
    {B : Type 0} (g : Worker → B) (f : ℕ → Worker) (w : ℕ) (v : Worker)
    → g v ≡ g (f w)
    → (u : ℕ) → g (update f w v u) ≡ g (f u)
update-field g f w v h u = elim (Bool-cases (w == u)) [
  | inl e ↦ let k : w ≡ u = ground arith in rw e (h ∙ ap (λ i. g (f i)) k)
  | inr e ↦ rw e refl
]

abbrev pub shutting : Life → Bool
shutting alive = false
shutting joining = false
shutting gone = true
shutting (draining_deques j) = true
shutting (draining_submissions j) = true

-- How many of the `n` deques, and of the submission queues, the destructor has drained.
abbrev pub deques_by : ℕ → Life → ℕ
deques_by n alive = 0
deques_by n joining = 0
deques_by n gone = n
deques_by n (draining_deques j) = j
deques_by n (draining_submissions j) = n

abbrev pub submissions_by : ℕ → Life → ℕ
submissions_by n alive = 0
submissions_by n joining = 0
submissions_by n gone = n
submissions_by n (draining_deques j) = 0
submissions_by n (draining_submissions j) = j

pub record Inv (s : Pool) : Type 0 where
  pub ok : (w : ℕ) → Ok (s.worker w)
  pub all_exited : shutting s.life ≡ true → (w : ℕ) → w < s.num_threads → (s.worker w).loop ≡ exited
  pub deques :
      (w : ℕ) → w < s.num_threads → w < deques_by s.num_threads s.life → (s.worker w).deque ≡ []
  pub submissions :
      s.late ≡ 0
      → (w : ℕ) → w < s.num_threads
      → w < submissions_by s.num_threads s.life
      → (s.worker w).submission ≡ []
  pub rest : s.life ≡ gone → s.running ≡ []

not_shutting :
    (n : ℕ) (l : Life)
    → shutting l ≡ false
    → (deques_by n l ≡ 0) × (submissions_by n l ≡ 0) × (l ≢ gone)
not_shutting n alive h = (refl, refl, cc)
not_shutting n joining h = (refl, refl, cc)
not_shutting n gone h = absurd cc
not_shutting n (draining_deques j) h = absurd cc
not_shutting n (draining_submissions j) h = absurd cc

pub not_late : (n : ℕ) (l : Life) → l ≢ gone → lateness l ≡ 0 → submissions_by n l ≡ 0
unfolding lateness
not_late n alive g h = refl
not_late n joining g h = refl
not_late n gone g h = absurd (g refl)
not_late n (draining_deques j) g h = refl
not_late n (draining_submissions j) g h = absurd (omega (arith, h))

pub open-Inv : (s : Pool) → shutting s.life ≡ false → ((w : ℕ) → Ok (s.worker w)) → Inv s
open-Inv s h o =
    let (a, b, c) = not_shutting s.num_threads s.life h in
    record {
      ok = o;
      all_exited = λ k. cc;
      deques = λ w p q. absurd (omega (arith, a, q));
      submissions = λ l w p q. absurd (omega (arith, b, q));
      rest = λ e. absurd (c e);
    }

-- While a worker is in its loop, the destructor has not got beyond its joins.
pub loop-open :
    {s : Pool} (w : ℕ)
    → Inv s
    → w < s.num_threads
    → (s.worker w).loop ≢ exited
    → shutting s.life ≡ false
loop-open {s} w i h e = elim (Bool-cases (shutting s.life)) [
  | inl k ↦ absurd (e (i.all_exited k w h))
  | inr k ↦ k
]

-- A worker stays well when its queues change.
pub update_queues-Ok :
    (f : ℕ → Worker) (w : ℕ) (q r : List ℕ)
    → ((u : ℕ) → Ok (f u))
    → (u : ℕ) → Ok (update f w (record (f w) { deque = q; submission = r }) u)
update_queues-Ok f w q r o =
    update-all Ok f w _ (record { helps = (o w).helps; left = (o w).left }) o
