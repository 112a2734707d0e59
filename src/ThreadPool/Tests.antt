-- ===== src/ThreadPool/Tests.antt =====
-- A run of a pool with one worker, from its construction to the end of its destructor, and the theorems
-- at it.
use forge_lock_free.Base.{◌≡◌, refl, [], ◌∷◌, ltb, ltb→lt, if◌then◌else◌, arith}
use forge_lock_free.ThreadPool.{
  gone, Pool, work, no_poll, no_deque, pop_submission, finish, pop_deque, no_submission, no_steal,
  give_up, stopped, drained_deque, exit, submit_inside, submit_outside, shut_down, joined,
  next_deque, all_deques, next_submission, shut, Reach, start, later, init, fresh, workers_for,
  next_tick, push_deque, push_submission, lateness, bump,
}
use forge_lock_free.Base.Count.{count}
use forge_lock_free.ThreadPool.Conserve.{places, task_once}
use forge_lock_free.ThreadPool.Shutdown.{shutdown_complete}

hardware : (workers_for 8 0 ≡ 8) × (workers_for 0 0 ≡ 1) × (workers_for 8 3 ≡ 3)
unfolding workers_for
hardware = (refl, refl, refl)

abbrev Run : Type 0
Run = (s : Pool) × Reach 8 1 s

-- Another thread submits task 0; the worker takes it, and it submits task 1.
nested : Run
unfolding init fresh workers_for next_tick push_deque push_submission lateness
nested = (
  _,
  later
      (later
        (later
          (later (later start (submit_outside 0 (cc) refl))
            (work 0 _ _ (ltb→lt 0 1 refl) (no_poll refl refl)))
          (work 0 _ _ (ltb→lt 0 1 refl) (no_deque refl refl refl)))
        (work 0 _ _ (ltb→lt 0 1 refl) (pop_submission 0 [] refl refl refl)))
      (submit_inside 0 (ltb→lt 0 1 refl) (cc) refl),
)

nested_places :
    (nested.0.submitted ≡ 2)
    × ((nested.0.worker 0).stack ≡ 0 ∷ [])
    × ((nested.0.worker 0).deque ≡ 1 ∷ [])
unfolding nested init fresh workers_for next_tick push_deque push_submission lateness
nested_places = (refl, refl, refl)

-- Both are run, and the worker finds no more.
idle : Run
unfolding nested init fresh workers_for next_tick push_deque push_submission lateness
idle = (
  _,
  later
      (later
        (later
          (later
            (later
              (later
                (later
                  (later
                    (later (later nested.1 (work 0 _ _ (ltb→lt 0 1 refl) (finish 0 [] refl refl)))
                      (work 0 _ _ (ltb→lt 0 1 refl) (no_poll refl refl)))
                    (work 0 _ _ (ltb→lt 0 1 refl) (pop_deque 1 [] refl refl refl)))
                  (work 0 _ _ (ltb→lt 0 1 refl) (finish 1 [] refl refl)))
                (work 0 _ _ (ltb→lt 0 1 refl) (no_poll refl refl)))
              (work 0 _ _ (ltb→lt 0 1 refl) (no_deque refl refl refl)))
            (work 0 _ _ (ltb→lt 0 1 refl) (no_submission refl refl)))
          (work 0 _ _ (ltb→lt 0 1 refl) (no_steal 0 refl refl (ltb→lt 0 2 refl))))
        (work 0 _ _ (ltb→lt 0 1 refl) (no_steal 1 refl refl (ltb→lt 1 2 refl))))
      (work 0 _ _ (ltb→lt 0 1 refl) (give_up refl refl)),
)

closed : Run
unfolding idle nested init fresh workers_for next_tick push_deque push_submission lateness bump
closed = (
  _,
  later
      (later
        (later
          (later
            (later
              (later
                (later
                  (later (later idle.1 (shut_down refl))
                    (work 0 _ _ (ltb→lt 0 1 refl) (stopped refl refl refl)))
                  (work 0 _ _ (ltb→lt 0 1 refl) (drained_deque refl refl refl)))
                (work 0 _ _ (ltb→lt 0 1 refl) (exit refl refl)))
              (joined refl (λ w h. ground arith)))
            (next_deque 0 refl refl (ltb→lt 0 1 refl) refl))
          (all_deques refl refl))
        (next_submission 0 refl refl (ltb→lt 0 1 refl) refl))
      (shut refl refl),
)

is_closed : (closed.0.life ≡ gone) × (closed.0.late ≡ 0) × (closed.0.finished ≡ 1 ∷ 0 ∷ [])
unfolding closed idle nested init fresh workers_for next_tick push_deque push_submission lateness
is_closed = (refl, refl, refl)

task_once_example : places 1 nested.0 ≡ (if ltb 1 nested.0.submitted then 1 else 0)
task_once_example = task_once 1 nested.1

shutdown_complete_example : count 1 closed.0.finished ≡ 1
unfolding closed idle nested init fresh workers_for next_tick push_deque push_submission lateness
shutdown_complete_example = shutdown_complete 1 closed.1 refl refl (ltb→lt 1 2 refl)
