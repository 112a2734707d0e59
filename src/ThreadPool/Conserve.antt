-- ===== src/ThreadPool/Conserve.antt =====
-- The places of the tasks, counted.
use forge_lock_free.Base.{
  ℕ, zero, suc, ◌+◌, ◌<◌, ◌≡◌, ◌≢◌, refl, ap, ◌∙◌, Bool, List, [], ◌∷◌, ◌++◌, ltb, ◌==◌,
  if◌then◌else◌, update, arith,
}
use forge_lock_free.Base.Count.{count, count-append}
use forge_lock_free.Base.Family.{total, total-update}
use forge_lock_free.ThreadPool.{
  top, not_helping, Worker, Move, poll, no_poll, pop_deque, no_deque, pop_submission, no_submission,
  no_steal, give_up, again, stopped, drain_pop_deque, drained_deque, drain_pop_submission, exit,
  finish, help_start, help_pop_deque, help_no_deque, help_pop_submission, help_no_submission,
  help_no_steal, help_none, Pool, fresh, init, workers_for, push_deque, push_submission, Step, work,
  steal, help_steals, submit_inside, submit_outside, notify, shut_down, joined, take_deque,
  next_deque, all_deques, take_submission, next_submission, shut, end_task, Reach, start, later,
}

-- How often a worker has a task.
abbrev pub held : ℕ → Worker → ℕ
held t v = count t v.deque + count t v.submission + count t v.stack

-- How often the pool has it: with its workers, with its destructor, or finished.
abbrev pub places : ℕ → Pool → ℕ
places t s = total (held t) s.num_threads s.worker + count t s.running + count t s.finished

Move-held :
    {n : ℕ} {stop : Bool} {v v' : Worker} {done : List ℕ} (t : ℕ)
    → Move n stop v done v'
    → held t v' + count t done ≡ held t v
Move-held t (poll u q e f g h) = omega (arith, ap (count t) e, ap (count t) h)
Move-held t (no_poll e f) = omega arith
Move-held t (pop_deque u q e f h) = omega (arith, ap (count t) e, ap (count t) h)
Move-held t (no_deque e f h) = omega arith
Move-held t (pop_submission u q e f h) = omega (arith, ap (count t) e, ap (count t) h)
Move-held t (no_submission e f) = omega arith
Move-held t (no_steal a e f h) = omega arith
Move-held t (give_up e f) = omega arith
Move-held t (again e f h) = omega arith
Move-held t (stopped e f h) = omega arith
Move-held t (drain_pop_deque u q e f h) = omega (arith, ap (count t) e, ap (count t) h)
Move-held t (drained_deque e f h) = omega arith
Move-held t (drain_pop_submission u q e f h) = omega (arith, ap (count t) e, ap (count t) h)
Move-held t (exit e f) = omega arith
Move-held t (finish u us e f) = omega (arith, ap (count t) e)
Move-held t (help_start e f) = omega arith
Move-held t (help_pop_deque u q f h) = omega (arith, ap (count t) h)
Move-held t (help_no_deque f h) = omega arith
Move-held t (help_pop_submission u q f h) = omega (arith, ap (count t) h)
Move-held t (help_no_submission f) = omega arith
Move-held t (help_no_steal i f h) = omega arith
Move-held t (help_none f) = omega arith

-- A task that one worker takes off the deque of another moves between the two.
steal-total :
    (t u n w j : ℕ) (q : List ℕ) (f : ℕ → Worker) (v : Worker)
    → w < n
    → j < n
    → j ≢ w
    → (f j).deque ≡ q ++ u ∷ []
    → held t v ≡ held t (f w) + count t (u ∷ [])
    → total (held t) n (update (update f j (record (f j) { deque = q })) w v) ≡ total (held t) n f
steal-total t u n w j q f v hw hj d e h =
    let g : ℕ → Worker = update f j (record (f j) { deque = q }) in
    let same : held t (g w) ≡ held t (f w) = ground arith in
    let last : count t (f j).deque ≡ count t q + count t (u ∷ []) =
      ap (count t) e ∙ count-append t q (u ∷ []) in
    omega (
      arith,
      same,
      last,
      h,
      total-update (held t) n w g v hw,
      total-update (held t) n j f (record (f j) { deque = q }) hj,
    )

Step-num_threads : {s t : Pool} → Step s t → t.num_threads ≡ s.num_threads
Step-num_threads (work w done v h m) = refl
Step-num_threads (steal w j a t q h g d e f b p) = refl
Step-num_threads (help_steals w j t q h g d e p) = refl
Step-num_threads (submit_inside w h e f) = refl
Step-num_threads (submit_outside w h e) = refl
Step-num_threads notify = refl
Step-num_threads (shut_down e) = refl
Step-num_threads (joined e h) = refl
Step-num_threads (take_deque j t q e f h p) = refl
Step-num_threads (next_deque j e f h p) = refl
Step-num_threads (all_deques e f) = refl
Step-num_threads (take_submission j t q e f h p) = refl
Step-num_threads (next_submission j e f h p) = refl
Step-num_threads (shut e f) = refl
Step-num_threads (end_task t e) = refl

-- A new task adds to its own places only.
submitted-once :
    (t m p q : ℕ)
    → p ≡ (if ltb t m then 1 else 0)
    → q ≡ p + (if t == m then 1 else 0)
    → q ≡ (if ltb t (m + 1) then 1 else 0)
submitted-once t m p q h g = ground (arith, h, g)

Step-places :
    {s s' : Pool} (t : ℕ)
    → Step s s'
    → 0 < s.num_threads
    → (places t s ≡ (if ltb t s.submitted then 1 else 0))
    → places t s' ≡ (if ltb t s'.submitted then 1 else 0)
unfolding push_deque push_submission
Step-places {s} t (work w done v h m) n e =
    let k = total-update (held t) s.num_threads w s.worker v h in
    omega (arith, e, k, Move-held t m, count-append t done s.finished)
Step-places {s} t (steal w j a u q h g d f l b p) n e =
    let v : Worker = record (s.worker w) { stack = u ∷ []; loop = top } in
    let k =
      steal-total t u s.num_threads w j q s.worker v h g d p (omega (arith, ap (count t) f)) in
    omega (arith, e, k)
Step-places {s} t (help_steals w j u q h g d f p) n e =
    let v : Worker = record (s.worker w) { stack = u ∷ (s.worker w).stack; help = not_helping } in
    let k = steal-total t u s.num_threads w j q s.worker v h g d p (omega arith) in
    omega (arith, e, k)
Step-places {s} t (submit_inside w h f g) n e =
    let v = push_deque s.submitted (s.worker w) in
    submitted-once t s.submitted _ _ e
      (omega (arith, total-update (held t) s.num_threads w s.worker v h))
Step-places {s} t (submit_outside w h f) n e =
    let v = push_submission s.submitted (s.worker w) in
    let l = count-append t (s.worker w).submission (s.submitted ∷ []) in
    submitted-once t s.submitted _ _ e
      (omega (arith, l, total-update (held t) s.num_threads w s.worker v (omega arith)))
Step-places t notify n e = e
Step-places t (shut_down f) n e = e
Step-places t (joined f h) n e = e
Step-places {s} t (take_deque j u q f r h p) n e =
    let k = total-update (held t) s.num_threads j s.worker (record (s.worker j) { deque = q }) h in
    omega (arith, e, k, ap (count t) r, ap (count t) p)
Step-places t (next_deque j f r h p) n e = e
Step-places t (all_deques f r) n e = e
Step-places {s} t (take_submission j u q f r h p) n e =
    let k =
      total-update (held t) s.num_threads j s.worker (record (s.worker j) { submission = q }) h in
    omega (arith, e, k, ap (count t) r, ap (count t) p)
Step-places t (next_submission j f r h p) n e = e
Step-places t (shut f r) n e = e
Step-places t (end_task u r) n e = omega (arith, e, ap (count t) r)

total-fresh : (t n : ℕ) → total (held t) n (λ _. fresh) ≡ 0
unfolding fresh
total-fresh t zero = refl
total-fresh t (suc n) = omega (arith, total-fresh t n)

workers_for-pos : (hw n : ℕ) → 0 < workers_for hw n
unfolding workers_for
workers_for-pos hw zero = ground arith
workers_for-pos hw (suc n) = omega arith

pub Reach-pos : {hw n : ℕ} {s : Pool} → Reach hw n s → 0 < s.num_threads
unfolding init
Reach-pos {hw} {n} start = workers_for-pos hw n
Reach-pos (later r st) = omega (arith, Reach-pos r, Step-num_threads st)

-- However workers and other threads interleave, every task that was submitted is in exactly one place:
-- in a deque, in a submission queue, running on a worker or in the destructor, or finished, and there
-- once; and a task that was not submitted is nowhere.
pub task_once :
    {hw n : ℕ} {s : Pool} (t : ℕ) → Reach hw n s → places t s ≡ (if ltb t s.submitted then 1 else 0)
unfolding init
task_once {hw} {n} t start = ground (arith, total-fresh t (workers_for hw n))
task_once t (later r st) = Step-places t st (Reach-pos r) (task_once t r)
