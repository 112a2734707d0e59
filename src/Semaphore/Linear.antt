-- ===== src/Semaphore/Linear.antt =====
-- The semaphore is linearizable: its calls are those of a plain counter.
use std.Path.{fun_ext}
use forge_lock_free.Base.{
  ℕ, zero, suc, ◌+◌, ◌<◌, ◌≡◌, refl, sym, ap, ◌∙◌, List, Option, none, some, arith, inl, inr, Bool,
  true, false, Bool-cases, ◌==◌, update,
}
use forge_lock_free.Base.Trace.{Replays, Replays-append}
use forge_lock_free.Semaphore.{
  Pc, outside, trying, acquired, refused, Event, take, refuse, returns, give, System, Step, load,
  cas_win, cas_lose, return_true, return_false, give_back, Reach, start, later, init, release, seen,
  observe,
}
use forge_lock_free.Semaphore.Counting.{Inv, Reach-Inv}

-- The specification: a counter, and for each thread what its call has come to but not returned yet.
pub record Counter : Type 0 where
  pub count : ℕ
  pub outcome : ℕ → Option Bool

abbrev pub full : ℕ → Counter
full max = record { count = max; outcome = λ i. none }

-- What one event may do to it, with at most `max` permits.
abbrev pub Allows : ℕ → Counter → Event → Counter → Type 0
Allows max c (take i) d =
    (c.count ≡ d.count + 1) × (c.outcome i ≡ none) × (d.outcome ≡ update c.outcome i (some true))
Allows max c (refuse i) d =
    (c.count ≡ 0)
    × (d.count ≡ 0)
    × (c.outcome i ≡ none)
    × (d.outcome ≡ update c.outcome i (some false))
Allows max c (returns i b) d =
    (d.count ≡ c.count) × (c.outcome i ≡ some b) × (d.outcome ≡ update c.outcome i none)
Allows max c give d = (c.count < max) × (d.count ≡ c.count + 1) × (d.outcome ≡ c.outcome)

abbrev pub outcome_at : Pc → Option Bool
outcome_at outside = none
outcome_at (trying c) = none
outcome_at acquired = some true
outcome_at refused = some false

abbrev pub outcomes : (ℕ → Pc) → ℕ → Option Bool
outcomes pc i = outcome_at (pc i)

-- The counter that a state stands for.
abbrev pub counter : System → Counter
counter s = record { count = s.sem.permits; outcome = outcomes s.pc }

-- A thread that moves.
moves :
    (pc : ℕ → Pc) (i : ℕ) (p : Pc)
    → outcomes (update pc i p) ≡ update (outcomes pc) i (outcome_at p)
moves pc i p = fun_ext λ j. elim (Bool-cases (i == j)) [ inl e ↦ rw e refl | inr e ↦ rw e refl ]

-- A thread that moves without an outcome.
stays :
    (pc : ℕ → Pc) (i : ℕ) (p : Pc)
    → outcome_at (pc i) ≡ outcome_at p
    → outcomes pc ≡ outcomes (update pc i p)
stays pc i p h = fun_ext λ j. elim (Bool-cases (i == j)) [
  | inl e ↦ rw e (let q : i ≡ j = ground (arith, e) in ap (λ k. outcome_at (pc k)) (sym q) ∙ h)
  | inr e ↦ rw e refl
]

-- What a thread finds in `permits_`, from a place without an outcome.
found :
    (max n : ℕ) (pc : ℕ → Pc) (i : ℕ)
    → outcome_at (pc i) ≡ none
    → Replays
        (Allows max)
        (record { count = n; outcome = outcomes pc })
        (seen i n)
        (record { count = n; outcome = outcomes (update pc i (observe n)) })
unfolding seen observe
found max zero pc i h = (_, (refl, refl, h, moves pc i refused), refl)
found max (suc n) pc i h =
    ap (λ f. record { count = suc n; outcome = f }) (stays pc i (trying (suc n)) h)

-- Each access is silent, or one event that the counter allows.
Step-Replays :
    {max : ℕ} {s : System} {es : List Event} {t : System}
    → Step s es t
    → Inv max s
    → Replays (Allows max) (counter s) es (counter t)
unfolding release
Step-Replays {max} {s} (load i e) v = found max s.sem.permits s.pc i (ap outcome_at e)
Step-Replays {max} {s} (cas_win i c e p) v =
    (_, (ground (arith, v.live i c), ap outcome_at e, moves s.pc i acquired), refl)
Step-Replays {max} {s} (cas_lose i c e) v = found max s.sem.permits s.pc i (ap outcome_at e)
Step-Replays {max} {s} (return_true i e) v =
    (_, (refl, ap outcome_at e, moves s.pc i outside), refl)
Step-Replays {max} {s} (return_false i e) v =
    (_, (refl, ap outcome_at e, moves s.pc i outside), refl)
Step-Replays (give_back i e h) v = (_, (omega (arith, v.whole), refl, refl), refl)

-- Whatever the interleaving, what the threads do is allowed by a counter that starts at the maximum: a
-- permit is taken only from a positive count, a refusal is made only while the count is zero, and a
-- call returns true exactly if it took a permit since the thread's last return, and false exactly if it
-- was refused since then. The count left is the value of `permits_`.
pub semaphore_linearizable :
    {max : ℕ} {es : List Event} {s : System}
    → Reach max es s
    → Replays (Allows max) (full max) es (counter s)
unfolding init
semaphore_linearizable start = refl
semaphore_linearizable {max} (later {es} {fs} {s} {t} r st) =
    Replays-append (Allows max) (full max) (counter s) (counter t) es fs (semaphore_linearizable r)
      (Step-Replays st (Reach-Inv r))
