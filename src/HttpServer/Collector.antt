-- ===== src/HttpServer/Collector.antt =====
-- The thread of `HttpServer::start` in src/server/http_server.cpp that calls `gc`, and `stop`, which
-- ends it; one access to `gc_stop_` at a time. The sockets of httplib are left out.
use forge_lock_free.Base.{ℕ, zero, suc, ◌+◌, ◌≡◌, refl, Bool, true, false, if◌then◌else◌}

-- Where the thread stands: before the test of its loop, in `sleep_for`, before the test after it, in
-- `gc`, or past the loop. `none_yet` and `joined` are a thread that is not joinable.
pub data Collector : Type 0 where
  none_yet testing sleeping retesting collecting ended joined : Collector

-- `collections` counts the calls of `gc` that have ended.
pub record Server : Type 0 where
  pub gc_stop : Bool
  pub gc_thread : Collector
  pub collections : ℕ

abbrev pub init : Server
init = record { gc_stop = false; gc_thread = none_yet; collections = 0 }

-- The thread's next step, with the number of collections that it ends.
unfoldable pub tick : Bool → Collector → Collector × ℕ
tick stop testing = (if stop then ended else sleeping, 0)
tick stop sleeping = (retesting, 0)
tick stop retesting = (if stop then testing else collecting, 0)
tick stop collecting = (testing, 1)
tick stop none_yet = (none_yet, 0)
tick stop ended = (ended, 0)
tick stop joined = (joined, 0)

pub data Step (s : Server) : Server → Type 0 where
  start : s.gc_thread ≡ none_yet → Step s (record s { gc_thread = testing })
  run : Step s (record s {
    gc_thread = (tick s.gc_stop s.gc_thread).0;
    collections = s.collections + (tick s.gc_stop s.gc_thread).1;
  })
  store_stop : Step s (record s { gc_stop = true })
  join : s.gc_stop ≡ true → s.gc_thread ≡ ended → Step s (record s { gc_thread = joined })

-- The steps that the thread takes by itself, with the collections that they end.
pub ticks : ℕ → Bool → Collector → Collector × ℕ
ticks zero stop c = (c, 0)
ticks (suc n) stop c = let t = tick stop c in let r = ticks n stop t.0 in (r.0, t.1 + r.1)

-- A running thread past its loop.
abbrev past : Collector → Collector
past none_yet = none_yet
past joined = joined
past _ = ended

abbrev in_gc : Collector → ℕ
in_gc collecting = 1
in_gc _ = 0

-- Once `gc_stop_` is stored, three steps bring a thread that runs past its loop, so that it can be
-- joined, and on the way it ends the collection that it is in and begins no other.
ticks-past : (c : Collector) → ticks 3 true c ≡ (past c, in_gc c)
unfolding ticks tick
ticks-past none_yet = refl
ticks-past testing = refl
ticks-past sleeping = refl
ticks-past retesting = refl
ticks-past collecting = refl
ticks-past ended = refl
ticks-past joined = refl
