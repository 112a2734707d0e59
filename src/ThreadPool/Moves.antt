-- ===== src/ThreadPool/Moves.antt =====
-- What the steps of one worker keep.
use forge_lock_free.Base.{ℕ, ◌≡◌, ◌≢◌, refl, Bool, List, []}
use forge_lock_free.ThreadPool.{
  exited, not_helping, Worker, Move, poll, no_poll, pop_deque, no_deque, pop_submission,
  no_submission, no_steal, give_up, again, stopped, drain_pop_deque, drained_deque,
  drain_pop_submission, exit, finish, help_start, help_pop_deque, help_no_deque,
  help_pop_submission, help_no_submission, help_no_steal, help_none,
}

-- Only a running task waits, and a worker that has left its loop runs none.
pub record Ok (v : Worker) : Type 0 where
  pub helps : v.stack ≡ [] → v.help ≡ not_helping
  pub left : v.loop ≡ exited → v.stack ≡ []

pub busy : {v : Worker} → Ok v → v.help ≢ not_helping → v.loop ≢ exited
busy o h e = h (o.helps (o.left e))

pub Move-Ok : {n : ℕ} {stop : Bool} {v v' : Worker} {d : List ℕ} → Move n stop v d v' → Ok v → Ok v'
Move-Ok (poll u q e f g h) o = record { helps = cc; left = cc }
Move-Ok (no_poll e f) o = record { helps = o.helps; left = cc }
Move-Ok (pop_deque u q e f h) o = record { helps = cc; left = cc }
Move-Ok (no_deque e f h) o = record { helps = o.helps; left = cc }
Move-Ok (pop_submission u q e f h) o = record { helps = cc; left = cc }
Move-Ok (no_submission e f) o = record { helps = o.helps; left = cc }
Move-Ok (no_steal a e f h) o = record { helps = o.helps; left = cc }
Move-Ok (give_up e f) o = record { helps = o.helps; left = cc }
Move-Ok (again e f h) o = record { helps = o.helps; left = cc }
Move-Ok (stopped e f h) o = record { helps = o.helps; left = cc }
Move-Ok (drain_pop_deque u q e f h) o = record { helps = cc; left = cc }
Move-Ok (drained_deque e f h) o = record { helps = o.helps; left = cc }
Move-Ok (drain_pop_submission u q e f h) o = record { helps = cc; left = cc }
Move-Ok (exit e f) o = record { helps = o.helps; left = λ _. e }
Move-Ok (finish u us e f) o = record { helps = λ _. f; left = λ l. let k = o.left l in absurd cc }
Move-Ok (help_start e f) o = record { helps = λ g. absurd (e g); left = o.left }
Move-Ok (help_pop_deque u q f h) o = record { helps = cc; left = λ l. absurd (busy o (cc) l) }
Move-Ok (help_no_deque f h) o = record {
  helps = λ k. absurd (let z = o.helps k in cc);
  left = o.left;
}
Move-Ok (help_pop_submission u q f h) o = record { helps = cc; left = λ l. absurd (busy o (cc) l) }
Move-Ok (help_no_submission f) o = record {
  helps = λ k. absurd (let z = o.helps k in cc);
  left = o.left;
}
Move-Ok (help_no_steal i f h) o = record {
  helps = λ k. absurd (let z = o.helps k in cc);
  left = o.left;
}
Move-Ok (help_none f) o = record { helps = λ _. refl; left = o.left }

pub Move-loop :
    {n : ℕ} {stop : Bool} {v v' : Worker} {d : List ℕ} → Move n stop v d v' → Ok v → v.loop ≢ exited
Move-loop (poll u q e f g h) o = cc
Move-loop (no_poll e f) o = cc
Move-loop (pop_deque u q e f h) o = cc
Move-loop (no_deque e f h) o = cc
Move-loop (pop_submission u q e f h) o = cc
Move-loop (no_submission e f) o = cc
Move-loop (no_steal a e f h) o = cc
Move-loop (give_up e f) o = cc
Move-loop (again e f h) o = cc
Move-loop (stopped e f h) o = cc
Move-loop (drain_pop_deque u q e f h) o = cc
Move-loop (drained_deque e f h) o = cc
Move-loop (drain_pop_submission u q e f h) o = cc
Move-loop (exit e f) o = cc
Move-loop (finish u us e f) o = λ l. let k = o.left l in cc
Move-loop (help_start e f) o = λ l. e (o.left l)
Move-loop (help_pop_deque u q f h) o = busy o (cc)
Move-loop (help_no_deque f h) o = busy o (cc)
Move-loop (help_pop_submission u q f h) o = busy o (cc)
Move-loop (help_no_submission f) o = busy o (cc)
Move-loop (help_no_steal i f h) o = busy o (cc)
Move-loop (help_none f) o = busy o (cc)
