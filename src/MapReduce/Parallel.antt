-- ===== src/MapReduce/Parallel.antt =====
-- The sub-tasks of src/workflow/map_reduce.cpp at once on the pool, one access to what they share at a
-- time: the counter of steps, the totals under their lock, and the entry of each.
pub mod Account
use forge_lock_free.Base.{ℕ, ◌+◌, ◌%◌, ◌^◌, ◌<◌, ◌≡◌, update}
use forge_lock_free.React.{WorkflowResult}
use forge_lock_free.MapReduce.{SubTask, task_result}

-- Where a sub-task stands: before its test of `cancel_requested`, past it with false returned, past
-- `fetch_add` on the counter, left by an exception of its run, past the lock, past its two writes.
pub data Place : Type 0 where
  waiting skipped counted thrown : Place
  added ended : WorkflowResult → Place

-- The counts of tokens are `int`s, which stand as their 32 bits.
pub record Shared (Int : Type 0) : Type 0 where
  pub place : ℕ → Place
  pub task : ℕ → SubTask Int
  pub step_count : ℕ
  pub total_prompt_tokens : ℕ
  pub total_completion_tokens : ℕ

module _ {Int : Type 0} where
  -- A step of sub-task `i`, of `tasks` in all.
  pub data Step (tasks : ℕ) (s : Shared Int) : Shared Int → Type 0 where
    skip :
        (i : ℕ)
        → i < tasks
        → s.place i ≡ waiting
        → Step tasks s (record s { place = update s.place i skipped })
    count :
        (i : ℕ)
        → i < tasks
        → s.place i ≡ waiting
        → Step tasks s (record s {
          place = update s.place i counted;
          step_count = (s.step_count + 1) % 2 ^ 32;
        })
    throw :
        (i : ℕ)
        → i < tasks
        → s.place i ≡ counted
        → Step tasks s (record s { place = update s.place i thrown })
    add :
        (i : ℕ) (q : WorkflowResult)
        → i < tasks
        → s.place i ≡ counted
        → Step tasks s (record s {
          place = update s.place i (added q);
          total_prompt_tokens = (s.total_prompt_tokens + q.total_prompt_tokens) % 2 ^ 32;
          total_completion_tokens =
              (s.total_completion_tokens + q.total_completion_tokens) % 2 ^ 32;
        })
    write :
        (i : ℕ) (q : WorkflowResult)
        → i < tasks
        → s.place i ≡ added q
        → Step tasks s (record s {
          place = update s.place i (ended q);
          task = update s.task i (task_result q (s.task i));
        })

  -- The runs from a state in which no sub-task has begun.
  pub data Reach (tasks : ℕ) (s : Shared Int) : Shared Int → Type 0 where
    start : ((i : ℕ) → s.place i ≡ waiting) → Reach tasks s s
    later : {t u : Shared Int} → Reach tasks s t → Step tasks t u → Reach tasks s u
