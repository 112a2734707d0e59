-- ===== src/MapReduce/Parallel/Account.antt =====
-- What the sub-tasks come to together.
use forge_lock_free.Base.{
  ℕ, zero, suc, ◌+◌, ◌%◌, ◌^◌, ◌<◌, ◌≡◌, ◌∙◌, refl, ap, update, Bool-cases, inl, inr, ◌==◌, arith,
}
use forge_lock_free.Base.Family.{total, total-update}
use forge_lock_free.React.{WorkflowResult}
use forge_lock_free.MapReduce.{SubTask, task_result}
use forge_lock_free.MapReduce.Parallel.{
  Place, waiting, skipped, counted, thrown, added, ended, Shared, Step, skip, count, throw, add,
  write, Reach, start, later,
}

abbrev pub began : Place → ℕ
began waiting = 0
began skipped = 0
began _ = 1

abbrev pub prompts : Place → ℕ
prompts (added q) = q.total_prompt_tokens
prompts (ended q) = q.total_prompt_tokens
prompts _ = 0

abbrev pub completions : Place → ℕ
completions (added q) = q.total_completion_tokens
completions (ended q) = q.total_completion_tokens
completions _ = 0

none_began :
    (tasks : ℕ) (f : ℕ → Place)
    → ((i : ℕ) → f i ≡ waiting)
    → (total began tasks f ≡ 0) × (total prompts tasks f ≡ 0) × (total completions tasks f ≡ 0)
none_began zero f h = (refl, refl, refl)
none_began (suc n) f h = ground (arith, none_began n f h, h n)

module _ {Int : Type 0} where
  -- The entry of a sub-task, by its place.
  abbrev pub entry : Place → SubTask Int → SubTask Int
  entry (ended q) t = task_result q t
  entry _ t = t

  -- What the shared data is, by the places of the sub-tasks alone.
  abbrev pub Accounted : ℕ → Shared Int → Shared Int → Type 0
  Accounted tasks s t =
      (t.step_count ≡ (s.step_count + total began tasks t.place) % 2 ^ 32)
      × (t.total_prompt_tokens ≡ (s.total_prompt_tokens + total prompts tasks t.place) % 2 ^ 32)
      × (t.total_completion_tokens
          ≡ (s.total_completion_tokens + total completions tasks t.place) % 2 ^ 32)
      × ((i : ℕ) → t.task i ≡ entry (t.place i) (s.task i))

  -- A step that leaves the entries alone.
  entries-kept :
      (place : ℕ → Place) (task first : ℕ → SubTask Int) (i : ℕ) (p : Place)
      → ((j : ℕ) → task j ≡ entry (place j) (first j))
      → ((t : SubTask Int) → entry (place i) t ≡ entry p t)
      → (j : ℕ) → task j ≡ entry (update place i p j) (first j)
  entries-kept place task first i p h g j = elim (Bool-cases (i == j)) [
    | inl e ↦ rw e (
        let q : j ≡ i = ground (arith, e) in
        h j ∙ ap (λ k. entry (place k) (first j)) q ∙ g (first j))
    | inr e ↦ rw e (h j)
  ]

  entries-written :
      (place : ℕ → Place) (task first : ℕ → SubTask Int) (i : ℕ) (q : WorkflowResult)
      → ((j : ℕ) → task j ≡ entry (place j) (first j))
      → place i ≡ added q
      → (j : ℕ)
      → update task i (task_result q (task i)) j ≡ entry (update place i (ended q) j) (first j)
  entries-written place task first i q h g j = elim (Bool-cases (i == j)) [
    | inl e ↦ rw e (
        let k : i ≡ j = ground (arith, e) in
        ap (task_result q) (h i ∙ ap (λ p. entry p (first i)) g ∙ ap first k))
    | inr e ↦ rw e (h j)
  ]

  Step-Accounted :
      {tasks : ℕ} (s : Shared Int) {t u : Shared Int}
      → Step tasks t u
      → Accounted tasks s t
      → Accounted tasks s u
  Step-Accounted {tasks} s {t} (skip i h e) (a, b, c, d) = (
    ground (arith, e, a, total-update began tasks i t.place skipped h),
    ground (arith, e, b, total-update prompts tasks i t.place skipped h),
    ground (arith, e, c, total-update completions tasks i t.place skipped h),
    entries-kept t.place t.task s.task i skipped d (λ x. ap (λ p. entry p x) e),
  )
  Step-Accounted {tasks} s {t} (count i h e) (a, b, c, d) =
      let k : total began tasks (update t.place i counted) ≡ suc (total began tasks t.place) =
        ground (arith, e, total-update began tasks i t.place counted h) in
      (
        omega (arith, a, k),
        ground (arith, e, b, total-update prompts tasks i t.place counted h),
        ground (arith, e, c, total-update completions tasks i t.place counted h),
        entries-kept t.place t.task s.task i counted d (λ x. ap (λ p. entry p x) e),
      )
  Step-Accounted {tasks} s {t} (throw i h e) (a, b, c, d) = (
    ground (arith, e, a, total-update began tasks i t.place thrown h),
    ground (arith, e, b, total-update prompts tasks i t.place thrown h),
    ground (arith, e, c, total-update completions tasks i t.place thrown h),
    entries-kept t.place t.task s.task i thrown d (λ x. ap (λ p. entry p x) e),
  )
  Step-Accounted {tasks} s {t} (add i q h e) (a, b, c, d) = (
    ground (arith, e, a, total-update began tasks i t.place (added q) h),
    ground (arith, e, b, total-update prompts tasks i t.place (added q) h),
    ground (arith, e, c, total-update completions tasks i t.place (added q) h),
    entries-kept t.place t.task s.task i (added q) d (λ x. ap (λ p. entry p x) e),
  )
  Step-Accounted {tasks} s {t} (write i q h e) (a, b, c, d) = (
    ground (arith, e, a, total-update began tasks i t.place (ended q) h),
    ground (arith, e, b, total-update prompts tasks i t.place (ended q) h),
    ground (arith, e, c, total-update completions tasks i t.place (ended q) h),
    entries-written t.place t.task s.task i q d e,
  )

  -- However the sub-tasks interleave from a state in which none has begun and the counters are under
  -- 2^32, what they share depends only on where each stands: the counter has been raised by one for
  -- each that has begun, modulo 2^32, the totals have the tokens of each that has added its own, modulo 2^32, and an
  -- entry has the result of its own sub-task once that has ended, and is as it was before.
  pub sub-tasks-Accounted :
      {tasks : ℕ} {s t : Shared Int}
      → s.step_count < 2 ^ 32
      → s.total_prompt_tokens < 2 ^ 32
      → s.total_completion_tokens < 2 ^ 32
      → Reach tasks s t
      → Accounted tasks s t
  sub-tasks-Accounted {tasks} {s} l lp lc (start w) =
      let (a, b, c) = none_began tasks s.place w in
      (omega (arith, a, l), omega (arith, b, lp), omega (arith, c, lc), λ i. rw (w i) refl)
  sub-tasks-Accounted {tasks} {s} l lp lc (later r st) =
      Step-Accounted s st (sub-tasks-Accounted l lp lc r)
