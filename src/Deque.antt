-- ===== src/Deque.antt =====
-- The Chase-Lev deque of src/core/work_stealing_deque.h: one owner and any number of thieves,
-- interleaved one shared access at a time (the atomics are taken as sequentially consistent).
-- `pop` of a new deque stores -1 in `bottom_`, so the model keeps `bottom_ + 1`.
pub mod Circular
pub mod Invariant
pub mod Contents
pub mod Once
mod Tests
use forge_lock_free.Base.{
  ℕ, suc, ◌+◌, ◌-◌, ◌≤◌, ◌<◌, ◌≡◌, ◌≢◌, Option, none, some, List, [], ◌∷◌, ◌++◌, Bool, ltb, leb,
  ◌==◌, if◌then◌else◌, update,
}
use Circular.{Buffer, fresh, put, get, grow}

-- The owner's place in `push` and `pop`, with its live locals; its `b` is `bottom_ - 1` in `pop`.
pub data Owner (A : Type 0) : Type 0 where
  idle : Owner A
  pushing : (value : A) (t : ℕ) → Owner A  -- `top_` is loaded
  putting : (value : A) → Owner A  -- there is room in the buffer
  storing : (value : A) → Owner A  -- before the store of `bottom_`
  popping : Owner A  -- `bottom_` is lowered, `top_` not loaded
  racing : (t : ℕ) (value : A) → Owner A  -- before the compare-exchange for the last entry
  restoring : (e : ℕ) → Owner A  -- before the store of `e` in `bottom_`

-- A thief's place in `steal`.
pub data Thief (A : Type 0) : Type 0 where
  outside : Thief A
  got_top : (t : ℕ) → Thief A
  in_range : (t : ℕ) → Thief A  -- `t < b`
  got_buffer : (t buf : ℕ) → Thief A
  got_value : (t : ℕ) (value : A) → Thief A  -- before the compare-exchange

-- Calls that took effect. A `steal` without a value is no event: it may fail at any time.
pub data Event (A : Type 0) : Type 0 where
  pushed : A → Event A
  popped : Option A → Event A
  stolen : A → Event A

-- Buffers are never freed while the deque lives: `old_buffers_` keeps those before `current`.
pub record Deque (A : Type 0) : Type 0 where
  pub top : ℕ
  pub bottom_succ : ℕ  -- `bottom_ + 1`
  pub current : ℕ  -- `buffer_`
  pub buffers : ℕ → Buffer A
  pub owner : Owner A
  pub thief : ℕ → Thief A

module _ {A : Type 0} where
  abbrev pub buffer : Deque A → Buffer A
  buffer d = d.buffers d.current

  pub init : ℕ → A → Deque A
  init capacity blank = record {
    top = 0;
    bottom_succ = 1;
    current = 0;
    buffers = λ _. fresh capacity blank;
    owner = idle;
    thief = λ _. outside;
  }

  unfoldable pub size : Deque A → ℕ
  size d = d.bottom_succ - 1 - d.top

  -- One shared access, with the calls that take effect at it. The owner alone writes `bottom_`, the
  -- slots and `buffer_`, so what it reads of them joins its next access.
  pub data Step (blank : A) (d : Deque A) : List (Event A) → Deque A → Type 0 where
    push_load : (v : A) → d.owner ≡ idle → Step blank d [] (record d { owner = pushing v d.top })
    push_room :
        (v : A) (t : ℕ)
        → d.owner ≡ pushing v t
        → d.bottom_succ ≤ t + (buffer d).cap
        → Step blank d [] (record d { owner = putting v })
    push_grow :
        (v : A) (t : ℕ)
        → d.owner ≡ pushing v t
        → t + (buffer d).cap < d.bottom_succ
        → Step blank d [] (record d {
          current = d.current + 1;
          buffers = update d.buffers (d.current + 1) (grow (buffer d) blank t (d.bottom_succ - 1));
          owner = putting v;
        })
    push_put :
        (v : A)
        → d.owner ≡ putting v
        → Step blank d [] (record d {
          buffers = update d.buffers d.current (put (buffer d) (d.bottom_succ - 1) v);
          owner = storing v;
        })
    push_store :
        (v : A)
        → d.owner ≡ storing v
        → Step blank d (pushed v ∷ []) (record d { bottom_succ = d.bottom_succ + 1; owner = idle })
    pop_lower :
        d.owner ≡ idle
        → Step blank d [] (record d { bottom_succ = d.bottom_succ - 1; owner = popping })
    pop_many :
        d.owner ≡ popping
        → d.top + 1 < d.bottom_succ
        → Step blank d
            (popped (some (get (buffer d) (d.bottom_succ - 1))) ∷ [])
            (record d { owner = idle })
    pop_last :
        d.owner ≡ popping
        → d.top + 1 ≡ d.bottom_succ
        → Step blank d [] (record d { owner = racing d.top (get (buffer d) d.top) })
    pop_empty :
        d.owner ≡ popping
        → d.bottom_succ ≤ d.top
        → Step blank d (popped none ∷ []) (record d { owner = restoring d.top })
    race_win :
        (t : ℕ) (v : A)
        → d.owner ≡ racing t v
        → d.top ≡ t
        → Step blank d (popped (some v) ∷ []) (record d { top = t + 1; owner = restoring (t + 1) })
    race_lose :
        (t : ℕ) (v : A)
        → d.owner ≡ racing t v
        → d.top ≢ t
        → Step blank d (popped none ∷ []) (record d { owner = restoring (t + 1) })
    restore :
        (e : ℕ)
        → d.owner ≡ restoring e
        → Step blank d [] (record d { bottom_succ = e + 1; owner = idle })
    steal_top :
        (i : ℕ)
        → d.thief i ≡ outside
        → Step blank d [] (record d { thief = update d.thief i (got_top d.top) })
    steal_range :
        (i t : ℕ)
        → d.thief i ≡ got_top t
        → t + 1 < d.bottom_succ
        → Step blank d [] (record d { thief = update d.thief i (in_range t) })
    steal_none :
        (i t : ℕ)
        → d.thief i ≡ got_top t
        → d.bottom_succ ≤ t + 1
        → Step blank d [] (record d { thief = update d.thief i outside })
    steal_buffer :
        (i t : ℕ)
        → d.thief i ≡ in_range t
        → Step blank d [] (record d { thief = update d.thief i (got_buffer t d.current) })
    steal_value :
        (i t p : ℕ)
        → d.thief i ≡ got_buffer t p
        → Step blank d []
            (record d { thief = update d.thief i (got_value t (get (d.buffers p) t)) })
    steal_win :
        (i t : ℕ) (v : A)
        → d.thief i ≡ got_value t v
        → d.top ≡ t
        → Step blank d (stolen v ∷ []) (record d { top = t + 1; thief = update d.thief i outside })
    steal_lose :
        (i t : ℕ) (v : A)
        → d.thief i ≡ got_value t v
        → d.top ≢ t
        → Step blank d [] (record d { thief = update d.thief i outside })

  pub data Reach (capacity : ℕ) (blank : A) : List (Event A) → Deque A → Type 0 where
    start : Reach capacity blank [] (init capacity blank)
    later :
        {es fs : List (Event A)} {d e : Deque A}
        → Reach capacity blank es d
        → Step blank d fs e
        → Reach capacity blank (es ++ fs) e
