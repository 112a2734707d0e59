-- ===== src/Semaphore/Counting.antt =====
-- The invariant of the semaphore: no permit is lost, made up, or released twice.
use forge_lock_free.Base.{ℕ, ◌+◌, ◌≤◌, ◌<◌, ◌≡◌, refl, List, arith, ltb}
use forge_lock_free.Semaphore.{
  trying, Event, System, Step, load, cas_win, cas_lose, return_true, return_false, give_back, Reach,
  start, later, init, release, release_assert, observe,
}

-- `current` is positive wherever the compare-exchange stands.
pub record Inv (max : ℕ) (s : System) : Type 0 where
  pub cap : s.sem.max_permits ≡ max
  pub whole : s.sem.permits + s.held ≡ max
  pub live : (i c : ℕ) → s.pc i ≡ trying c → 0 < c

Step-Inv :
    {max : ℕ} {s : System} {es : List Event} {t : System} → Step s es t → Inv max s → Inv max t
unfolding release observe
Step-Inv (load i e) v = record {
  cap = v.cap;
  whole = v.whole;
  live = λ j c q. ground (arith, v.live j c);
}
Step-Inv (cas_win i c e p) v = record {
  cap = v.cap;
  whole = ground (arith, v.live i c);
  live = λ j d q. ground (arith, v.live j d);
}
Step-Inv (cas_lose i c e) v = record {
  cap = v.cap;
  whole = v.whole;
  live = λ j d q. ground (arith, v.live j d);
}
Step-Inv (return_true i e) v = record {
  cap = v.cap;
  whole = v.whole;
  live = λ j d q. ground (arith, v.live j d);
}
Step-Inv (return_false i e) v = record {
  cap = v.cap;
  whole = v.whole;
  live = λ j d q. ground (arith, v.live j d);
}
Step-Inv (give_back i e h) v = record { cap = v.cap; whole = omega (arith, v.whole); live = v.live }

pub Reach-Inv : {max : ℕ} {es : List Event} {s : System} → Reach max es s → Inv max s
unfolding init
Reach-Inv start = record { cap = refl; whole = omega arith; live = λ i c q. ground arith }
Reach-Inv (later r st) = Step-Inv st (Reach-Inv r)

-- In every reachable state the free permits and the held ones add up to the maximum, so never more
-- than the maximum are held; and the assertion of `release` passes exactly while one is held.
pub permits_conserved :
    {max : ℕ} {es : List Event} {s : System}
    → Reach max es s
    → (s.sem.permits + s.held ≡ max) × (s.held ≤ max) × (release_assert s.sem ≡ ltb 0 s.held)
unfolding release_assert
permits_conserved r =
    let v = Reach-Inv r in (v.whole, omega (arith, v.whole), ground (arith, v.whole, v.cap))
