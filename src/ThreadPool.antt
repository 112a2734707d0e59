-- ===== src/ThreadPool.antt =====
-- The thread pool of src/core/thread_pool.h and thread_pool.cpp: its queues, its workers with the tasks
-- that they run, and its destructor. A call on a queue is one step, as the theorems on Deque and Mpsc
-- allow; tasks are numbered in the order of their submission.
pub mod Conserve
pub mod Moves
pub mod Phases
pub mod Shutdown
mod Tests
use forge_lock_free.Base.{
  ℕ, zero, suc, ◌+◌, ◌*◌, ◌%◌, ◌^◌, ◌<◌, ◌≡◌, ◌≢◌, Bool, true, false, List, [], ◌∷◌, ◌++◌, ltb,
  ◌==◌, if◌then◌else◌, update,
}

-- Where `worker_loop` stands; the numbers are `attempts`.
pub data Loop : Type 0 where
  top own_deque own_submission out_of_work drain_deque drain_submission exited : Loop
  stealing : (attempts : ℕ) → Loop

-- Where `try_process_one` stands, called by the `get` of a future in a task that runs.
pub data Help : Type 0 where
  not_helping help_deque help_submission : Help
  help_steal : (i : ℕ) → Help

-- The queues of a worker and its thread. The first entry of `deque` is at its bottom; `stack` has the
-- tasks that run on the thread, each called by the `get` of the next.
pub record Worker : Type 0 where
  pub deque : List ℕ
  pub submission : List ℕ
  pub tick : ℕ
  pub stack : List ℕ
  pub loop : Loop
  pub help : Help

unfoldable pub next_tick : ℕ → ℕ
next_tick tick = (tick + 1) % 2 ^ 32

-- A step of worker `v` on its own queues, with the task that it ends. The MPSC queue may look empty
-- while a producer has not linked its node; the deque, to its owner, not.
pub data Move (n : ℕ) (stop : Bool) (v : Worker) : List ℕ → Worker → Type 0 where
  poll :
      (t : ℕ) (q : List ℕ)
      → v.stack ≡ []
      → v.loop ≡ top
      → next_tick v.tick % 64 ≡ 0
      → v.submission ≡ t ∷ q
      → Move n stop v [] (record v { tick = next_tick v.tick; submission = q; stack = t ∷ [] })
  no_poll :
      v.stack ≡ []
      → v.loop ≡ top
      → Move n stop v [] (record v { tick = next_tick v.tick; loop = own_deque })
  pop_deque :
      (t : ℕ) (q : List ℕ)
      → v.stack ≡ []
      → v.loop ≡ own_deque
      → v.deque ≡ t ∷ q
      → Move n stop v [] (record v { deque = q; stack = t ∷ []; loop = top })
  no_deque :
      v.stack ≡ []
      → v.loop ≡ own_deque
      → v.deque ≡ []
      → Move n stop v [] (record v { loop = own_submission })
  pop_submission :
      (t : ℕ) (q : List ℕ)
      → v.stack ≡ []
      → v.loop ≡ own_submission
      → v.submission ≡ t ∷ q
      → Move n stop v [] (record v { submission = q; stack = t ∷ []; loop = top })
  no_submission :
      v.stack ≡ [] → v.loop ≡ own_submission → Move n stop v [] (record v { loop = stealing 0 })
  no_steal :
      (a : ℕ)
      → v.stack ≡ []
      → v.loop ≡ stealing a
      → a < n * 2
      → Move n stop v [] (record v { loop = stealing (a + 1) })
  give_up :
      v.stack ≡ [] → v.loop ≡ stealing (n * 2) → Move n stop v [] (record v { loop = out_of_work })
  -- After the wait for the epoch.
  again :
      v.stack ≡ []
      → v.loop ≡ out_of_work
      → stop ≡ false
      → Move n stop v [] (record v { loop = top })
  stopped :
      v.stack ≡ []
      → v.loop ≡ out_of_work
      → stop ≡ true
      → Move n stop v [] (record v { loop = drain_deque })
  drain_pop_deque :
      (t : ℕ) (q : List ℕ)
      → v.stack ≡ []
      → v.loop ≡ drain_deque
      → v.deque ≡ t ∷ q
      → Move n stop v [] (record v { deque = q; stack = t ∷ [] })
  drained_deque :
      v.stack ≡ []
      → v.loop ≡ drain_deque
      → v.deque ≡ []
      → Move n stop v [] (record v { loop = drain_submission })
  drain_pop_submission :
      (t : ℕ) (q : List ℕ)
      → v.stack ≡ []
      → v.loop ≡ drain_submission
      → v.submission ≡ t ∷ q
      → Move n stop v [] (record v { submission = q; stack = t ∷ [] })
  exit : v.stack ≡ [] → v.loop ≡ drain_submission → Move n stop v [] (record v { loop = exited })
  -- The task returns and is deleted.
  finish :
      (t : ℕ) (ts : List ℕ)
      → v.stack ≡ t ∷ ts
      → v.help ≡ not_helping
      → Move n stop v (t ∷ []) (record v { stack = ts })
  help_start :
      v.stack ≢ [] → v.help ≡ not_helping → Move n stop v [] (record v { help = help_deque })
  help_pop_deque :
      (t : ℕ) (q : List ℕ)
      → v.help ≡ help_deque
      → v.deque ≡ t ∷ q
      → Move n stop v [] (record v { deque = q; stack = t ∷ v.stack; help = not_helping })
  help_no_deque :
      v.help ≡ help_deque → v.deque ≡ [] → Move n stop v [] (record v { help = help_submission })
  help_pop_submission :
      (t : ℕ) (q : List ℕ)
      → v.help ≡ help_submission
      → v.submission ≡ t ∷ q
      → Move n stop v [] (record v { submission = q; stack = t ∷ v.stack; help = not_helping })
  help_no_submission :
      v.help ≡ help_submission → Move n stop v [] (record v { help = help_steal 0 })
  help_no_steal :
      (i : ℕ)
      → v.help ≡ help_steal i
      → i < n
      → Move n stop v [] (record v { help = help_steal (i + 1) })
  help_none : v.help ≡ help_steal n → Move n stop v [] (record v { help = not_helping })

-- Where the destructor stands; the numbers count the queues that it has drained.
pub data Life : Type 0 where
  alive joining gone : Life
  draining_deques draining_submissions : (j : ℕ) → Life

-- `running` has the task that the destructor runs. `submitted` is the number of the next task. Only
-- proofs read `finished`, which has the tasks that were run and deleted, and `late`, which counts those
-- submitted while the destructor drains the submission queues.
pub record Pool : Type 0 where
  pub num_threads : ℕ
  pub worker : ℕ → Worker
  pub stop : Bool
  pub next_worker : ℕ
  pub epoch : ℕ
  pub life : Life
  pub running : List ℕ
  pub submitted : ℕ
  pub finished : List ℕ
  pub late : ℕ

unfoldable pub fresh : Worker
fresh = record { deque = []; submission = []; tick = 0; stack = []; loop = top; help = not_helping }

-- The number of workers: the argument, or what the hardware reports, and at least 1.
unfoldable pub workers_for : (hardware num_threads : ℕ) → ℕ
workers_for hardware zero = if ltb 1 hardware then hardware else 1
workers_for hardware (suc n) = suc n

unfoldable pub init : ℕ → Pool
unfolding fresh
init n = record {
  num_threads = n;
  worker = λ _. fresh;
  stop = false;
  next_worker = 0;
  epoch = 0;
  life = alive;
  running = [];
  submitted = 0;
  finished = [];
  late = 0;
}

unfoldable pub bump : ℕ → ℕ
bump epoch = (epoch + 1) % 2 ^ 64

-- `push` on the deque of the submitting worker.
unfoldable pub push_deque : ℕ → Worker → Worker
push_deque t v = record v { deque = t ∷ v.deque }

-- `push` on the submission queue.
unfoldable pub push_submission : ℕ → Worker → Worker
push_submission t v = record v { submission = v.submission ++ t ∷ [] }

-- Whether a task submitted now counts as late.
unfoldable pub lateness : Life → ℕ
lateness (draining_submissions j) = 1
lateness alive = 0
lateness joining = 0
lateness gone = 0
lateness (draining_deques j) = 0

pub data Step (s : Pool) : Pool → Type 0 where
  work :
      (w : ℕ) (done : List ℕ) (v : Worker)
      → w < s.num_threads
      → Move s.num_threads s.stop (s.worker w) done v
      → Step s (record s { worker = update s.worker w v; finished = done ++ s.finished })
  -- Worker `w` takes what is at the top of the deque of `j`, between tasks or for one that waits.
  steal :
      (w j a t : ℕ) (q : List ℕ)
      → w < s.num_threads
      → j < s.num_threads
      → j ≢ w
      → (s.worker w).stack ≡ []
      → (s.worker w).loop ≡ stealing a
      → a < s.num_threads * 2
      → (s.worker j).deque ≡ q ++ t ∷ []
      → Step s (record s {
        worker =
            update
              (update s.worker j (record (s.worker j) { deque = q }))
              w
              (record (s.worker w) { stack = t ∷ []; loop = top });
      })
  help_steals :
      (w j t : ℕ) (q : List ℕ)
      → w < s.num_threads
      → j < s.num_threads
      → j ≢ w
      → (s.worker w).help ≡ help_steal j
      → (s.worker j).deque ≡ q ++ t ∷ []
      → Step s (record s {
        worker =
            update
              (update s.worker j (record (s.worker j) { deque = q }))
              w
              (record (s.worker w) { stack = t ∷ (s.worker w).stack; help = not_helping });
      })
  -- `submit` or `submit_local` from a task on worker `w`.
  submit_inside :
      (w : ℕ)
      → w < s.num_threads
      → (s.worker w).stack ≢ []
      → (s.worker w).help ≡ not_helping
      → Step s (record s {
        worker = update s.worker w (push_deque s.submitted (s.worker w));
        submitted = s.submitted + 1;
      })
  -- `submit` from any other thread, that of the destructor included.
  submit_outside :
      (w : ℕ)
      → s.life ≢ gone
      → w ≡ s.next_worker % s.num_threads
      → Step s (record s {
        worker = update s.worker w (push_submission s.submitted (s.worker w));
        next_worker = (s.next_worker + 1) % 2 ^ 32;
        submitted = s.submitted + 1;
        late = s.late + lateness s.life;
      })
  -- The second half of a `submit`, whenever it comes.
  notify : Step s (record s { epoch = bump s.epoch })
  shut_down :
      s.life ≡ alive → Step s (record s { stop = true; epoch = bump s.epoch; life = joining })
  joined :
      s.life ≡ joining
      → ((w : ℕ) → w < s.num_threads → (s.worker w).loop ≡ exited)
      → Step s (record s { life = draining_deques 0 })
  take_deque :
      (j t : ℕ) (q : List ℕ)
      → s.life ≡ draining_deques j
      → s.running ≡ []
      → j < s.num_threads
      → (s.worker j).deque ≡ t ∷ q
      → Step s (record s {
        worker = update s.worker j (record (s.worker j) { deque = q });
        running = t ∷ [];
      })
  next_deque :
      (j : ℕ)
      → s.life ≡ draining_deques j
      → s.running ≡ []
      → j < s.num_threads
      → (s.worker j).deque ≡ []
      → Step s (record s { life = draining_deques (j + 1) })
  all_deques :
      s.life ≡ draining_deques s.num_threads
      → s.running ≡ []
      → Step s (record s { life = draining_submissions 0 })
  take_submission :
      (j t : ℕ) (q : List ℕ)
      → s.life ≡ draining_submissions j
      → s.running ≡ []
      → j < s.num_threads
      → (s.worker j).submission ≡ t ∷ q
      → Step s (record s {
        worker = update s.worker j (record (s.worker j) { submission = q });
        running = t ∷ [];
      })
  next_submission :
      (j : ℕ)
      → s.life ≡ draining_submissions j
      → s.running ≡ []
      → j < s.num_threads
      → (s.worker j).submission ≡ []
      → Step s (record s { life = draining_submissions (j + 1) })
  shut :
      s.life ≡ draining_submissions s.num_threads
      → s.running ≡ []
      → Step s (record s { life = gone })
  -- The destructor's task returns and is deleted.
  end_task :
      (t : ℕ) → s.running ≡ t ∷ [] → Step s (record s { running = []; finished = t ∷ s.finished })

-- What a pool constructed for so many threads may come to.
pub data Reach (hardware num_threads : ℕ) : Pool → Type 0 where
  start : Reach hardware num_threads (init (workers_for hardware num_threads))
  later : {s t : Pool} → Reach hardware num_threads s → Step s t → Reach hardware num_threads t
