-- ===== src/RateLimiter/Rate.antt =====
-- The rate that the bucket lets through, over all interleavings.
use Prim.Native.Nat.{◌*◌}
use native.Mathlib.Nat.{mul-add}
use forge_lock_free.Base.{
  ℕ, zero, suc, ◌+◌, ◌-◌, ◌<◌, ◌≤◌, ◌≡◌, refl, sym, ◌∙◌, ap, subst, ◌==◌, ltb, leb, update, List,
  [], ◌∷◌, ◌++◌, arith, total, total-update, if_rule,
}
use forge_lock_free.RateLimiter.{
  Pc, outside, claiming, minting, adding, ready, taking, Event, granted, refused, System, Step,
  load_refill, claim_win, claim_lose, load_current, add_win, add_lose, load_tokens, take_win,
  take_lose, Reach, start, later, window, credit, observe, seen, init,
}

-- The amount that calls were granted.
abbrev pub spent : List Event → ℕ
spent [] = 0
spent (granted n ∷ es) = n + spent es
spent (refused ∷ es) = spent es

spent-append : (es fs : List Event) → spent (es ++ fs) ≡ spent es + spent fs
spent-append [] fs = omega arith
spent-append (granted n ∷ es) fs = omega (arith, spent-append es fs)
spent-append (refused ∷ es) fs = spent-append es fs

-- What a thread has claimed and not added yet.
abbrev pending : Pc → ℕ
pending (minting needed n) = n
pending (adding needed n current) = n
pending p = 0

spent-seen : (needed current : ℕ) → spent (seen needed current) ≡ 0
unfolding seen
spent-seen needed current = ground arith

pending-window : (needed now prev : ℕ) → pending (window needed now prev) ≡ 0
unfolding window
pending-window needed now prev = ground arith

pending-credit : (needed n : ℕ) → pending (credit needed n) ≡ n
unfolding credit
pending-credit needed zero = refl
pending-credit needed (suc n) = refl

pending-observe : (needed current : ℕ) → pending (observe needed current) ≡ 0
unfolding observe
pending-observe needed current = ground arith

-- A claimed window ends after it begins, and what is taken was seen to be there.
abbrev PcOk : Pc → Type 0
PcOk (claiming needed now prev) = prev < now
PcOk (taking needed current) = needed ≤ current
PcOk p = ◌≡◌ {A = ℕ} 0 0

-- `rate` is the bound of tokens in a microsecond.
record Inv (rate burst began threads : ℕ) (es : List Event) (s : System) : Type 0 where
  cap : s.limiter.burst ≡ burst
  full : s.limiter.tokens ≤ burst
  begun : began ≤ s.limiter.last_refill
  spare :
      s.limiter.tokens + spent es + total pending threads s.pc
      ≤ burst + rate * (s.limiter.last_refill - began)
  pcs : (i : ℕ) → PcOk (s.pc i)

pcs-update :
    (pc : ℕ → Pc) (i : ℕ) (p : Pc)
    → ((j : ℕ) → PcOk (pc j))
    → PcOk p
    → (j : ℕ) → PcOk (update pc i p j)
pcs-update pc i p h k j = if_rule PcOk (i == j) (λ _. k) (λ _. h j)

window-PcOk : (needed now prev : ℕ) → PcOk (window needed now prev)
unfolding window
window-PcOk needed now prev = if_rule PcOk (leb now prev) (λ _. refl) (λ e. ground (arith, e))

observe-PcOk : (needed current : ℕ) → PcOk (observe needed current)
unfolding observe
observe-PcOk needed current = if_rule PcOk (ltb current needed) (λ _. refl) (λ e. ground (arith, e))

credit-PcOk : (needed n : ℕ) → PcOk (credit needed n)
unfolding credit
credit-PcOk needed zero = refl
credit-PcOk needed (suc n) = refl

total-none : (n : ℕ) → total pending n (λ _. outside) ≡ 0
total-none zero = refl
total-none (suc n) = omega (arith, total-none n)

module _ {rate burst began threads : ℕ} where
  -- A move of one thread that leaves the bucket alone and gives up nothing that is pending.
  moved :
      {es : List Event} {s : System} (fs : List Event) (i : ℕ) (p : Pc)
      → Inv rate burst began threads es s
      → i < threads
      → spent fs ≡ 0
      → pending p ≤ pending (s.pc i)
      → PcOk p
      → Inv rate burst began threads (es ++ fs) (record s { pc = update s.pc i p })
  moved {es} {s} fs i p v h z l k = record {
    cap = v.cap;
    full = v.full;
    begun = v.begun;
    spare = omega (arith, v.spare, spent-append es fs, total-update pending threads i s.pc p h);
    pcs = pcs-update s.pc i p v.pcs k;
  }

  Step-Inv :
      {minted : ℕ → ℕ} {es : List Event} {s : System} {fs : List Event} {t : System}
      → ((n : ℕ) → minted n ≤ rate * n)
      → Step minted threads s fs t
      → Inv rate burst began threads es s
      → Inv rate burst began threads (es ++ fs) t
  Step-Inv {minted} {es} {s} m (load_refill i needed now h e) v =
      let p = window needed now s.limiter.last_refill in
      moved [] i p v h refl (omega (arith, pending-window needed now s.limiter.last_refill))
        (window-PcOk needed now s.limiter.last_refill)
  Step-Inv {minted} {es} {s} m (claim_lose i needed now prev h e) v =
      let p = window needed now s.limiter.last_refill in
      moved [] i p v h refl (omega (arith, pending-window needed now s.limiter.last_refill))
        (window-PcOk needed now s.limiter.last_refill)
  Step-Inv {minted} {es} {s} m (load_current i needed n h e) v =
      moved [] i (adding needed n s.limiter.tokens) v h refl (rw e (omega arith)) refl
  Step-Inv {minted} {es} {s} m (add_lose i needed n current h e) v =
      moved [] i (adding needed n s.limiter.tokens) v h refl (rw e (omega arith)) refl
  Step-Inv {minted} {es} {s} m (load_tokens i needed h e) v =
      moved (seen needed s.limiter.tokens) i (observe needed s.limiter.tokens) v h
        (spent-seen needed s.limiter.tokens)
        (omega (arith, pending-observe needed s.limiter.tokens))
        (observe-PcOk needed s.limiter.tokens)
  Step-Inv {minted} {es} {s} m (take_lose i needed current h e) v =
      moved (seen needed s.limiter.tokens) i (observe needed s.limiter.tokens) v h
        (spent-seen needed s.limiter.tokens)
        (omega (arith, pending-observe needed s.limiter.tokens))
        (observe-PcOk needed s.limiter.tokens)
  Step-Inv {minted} {es} {s} m (claim_win i needed now prev h e l) v =
      let n = minted (now - prev) in
      let p = credit needed n in
      let a : prev < now = subst PcOk e (v.pcs i) in
      let x : pending (s.pc i) ≡ 0 = ap pending e in
      let sp : s.limiter.tokens + spent es + total pending threads s.pc
          ≤ burst + rate * (prev - began) =
        subst
          (λ x.
            s.limiter.tokens + spent es + total pending threads s.pc ≤ burst + rate * (x - began))
          l v.spare in
      let b : rate * (prev - began) + rate * (now - prev) ≡ rate * (now - began) =
        sym (mul-add rate (prev - began) (now - prev))
        ∙ ap (λ x. rate * x) (omega (arith, v.begun, l)) in
      record {
        cap = v.cap;
        full = v.full;
        begun = omega (arith, v.begun);
        spare = omega (
          arith,
          sp,
          x,
          b,
          m (now - prev),
          spent-append es [],
          total-update pending threads i s.pc p h,
          pending-credit needed n,
        );
        pcs = pcs-update s.pc i p v.pcs (credit-PcOk needed n);
      }
  Step-Inv {minted} {es} {s} m (add_win i needed n current h e l) v = record {
    cap = v.cap;
    full = ground (arith, v.cap);
    begun = v.begun;
    spare =
        (let x : pending (s.pc i) ≡ n = ap pending e in
          ground (
            arith,
            v.spare,
            x,
            spent-append es [],
            total-update pending threads i s.pc (ready needed) h,
          ));
    pcs = pcs-update s.pc i (ready needed) v.pcs refl;
  }
  Step-Inv {minted} {es} {s} m (take_win i needed current h e l) v =
      let a : needed ≤ current = subst PcOk e (v.pcs i) in
      record {
        cap = v.cap;
        full = omega (arith, v.full);
        begun = v.begun;
        spare =
            (let x : pending (s.pc i) ≡ 0 = ap pending e in
              omega (
                arith,
                v.spare,
                x,
                l,
                a,
                spent-append es (granted needed ∷ []),
                total-update pending threads i s.pc outside h,
              ));
        pcs = pcs-update s.pc i outside v.pcs refl;
      }

  Reach-Inv :
      {minted : ℕ → ℕ} {es : List Event} {s : System}
      → ((n : ℕ) → minted n ≤ rate * n)
      → Reach minted threads burst began es s
      → Inv rate burst began threads es s
  unfolding init
  Reach-Inv m start = record {
    cap = refl;
    full = omega arith;
    begun = omega arith;
    spare = omega (arith, total-none threads);
    pcs = λ i. refl;
  }
  Reach-Inv m (later r st) = Step-Inv m st (Reach-Inv m r)

-- However the threads interleave: if the arithmetic of `refill` mints at most `rate` millionths of a
-- token for each microsecond of a window, then all calls together have been granted at most the burst
-- and `rate` for each microsecond from the construction to the last refill, less what is left in the
-- bucket; and the bucket never holds more than the burst.
pub rate_bound :
    {minted : ℕ → ℕ} (rate : ℕ) {burst began threads : ℕ} {es : List Event} {s : System}
    → ((n : ℕ) → minted n ≤ rate * n)
    → Reach minted threads burst began es s
    → (spent es + s.limiter.tokens ≤ burst + rate * (s.limiter.last_refill - began))
      × (s.limiter.tokens ≤ burst)
rate_bound rate m r = let v = Reach-Inv m r in (omega (arith, v.spare), v.full)
