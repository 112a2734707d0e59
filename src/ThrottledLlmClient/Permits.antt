-- ===== src/ThrottledLlmClient/Permits.antt =====
-- Where the permits are.
use forge_lock_free.Base.{ℕ, zero, suc, ◌+◌, ◌-◌, ◌≤◌, ◌<◌, ◌≡◌, refl, update, arith}
use forge_lock_free.Base.Family.{total, total-update}
use forge_lock_free.Semaphore.{release}
use forge_lock_free.ThrottledLlmClient.{
  Call, outside, limited, permitted, waiting, throwing, thrown, lost, released, answered, System,
  init, take, Step, limit, acquire, inner_throws, rethrow, chain, respond, satisfy, fail, Reach,
  start, later,
}

module _ {R E : Type 0} where
  -- A call whose permit will be given back.
  abbrev pub in_flight : Call R E → ℕ
  in_flight permitted = 1
  in_flight waiting = 1
  in_flight (throwing e) = 1
  in_flight _ = 0

  -- A call that keeps its permit for ever.
  abbrev pub leaked : Call R E → ℕ
  leaked (lost e) = 1
  leaked _ = 0

  abbrev Whole : ℕ → ℕ → System R E → Type 0
  Whole max calls s = s.sem.permits + total in_flight calls s.call + total leaked calls s.call ≡ max

  module _ (calls : ℕ) (s : System R E) (i : ℕ) (c : Call R E) where
    -- The sums after call `i` has moved.
    moved :
        i < calls
        → (total in_flight calls (update s.call i c) + in_flight (s.call i)
            ≡ total in_flight calls s.call + in_flight c)
          × (total leaked calls (update s.call i c) + leaked (s.call i)
              ≡ total leaked calls s.call + leaked c)
    moved h = (total-update in_flight calls i s.call c h, total-update leaked calls i s.call c h)

  Step-Whole :
      {max calls : ℕ} {s t : System R E} → Step calls s t → Whole max calls s → Whole max calls t
  unfolding take release
  Step-Whole {max} {calls} {s} (limit i h e) w = ground (arith, e, w, moved calls s i limited h)
  Step-Whole {max} {calls} {s} (acquire i n h e p) w =
      ground (arith, e, p, w, moved calls s i permitted h)
  Step-Whole {max} {calls} {s} (inner_throws i x h e) w =
      ground (arith, e, w, moved calls s i (throwing x) h)
  Step-Whole {max} {calls} {s} (rethrow i x h e) w =
      ground (arith, e, w, moved calls s i (thrown x) h)
  Step-Whole {max} {calls} {s} (chain i h e) w = ground (arith, e, w, moved calls s i waiting h)
  Step-Whole {max} {calls} {s} (respond i r h e) w =
      ground (arith, e, w, moved calls s i (released r) h)
  Step-Whole {max} {calls} {s} (satisfy i r h e) w =
      ground (arith, e, w, moved calls s i (answered r) h)
  Step-Whole {max} {calls} {s} (fail i x h e) w = ground (arith, e, w, moved calls s i (lost x) h)

  none_yet :
      (calls : ℕ) (f : ℕ → Call R E)
      → ((i : ℕ) → f i ≡ outside)
      → total in_flight calls f + total leaked calls f ≡ 0
  none_yet zero f h = refl
  none_yet (suc n) f h = ground (arith, none_yet n f h, h n)

  Reach-Whole : {max calls : ℕ} {s : System R E} → Reach max calls s → Whole max calls s
  unfolding init
  Reach-Whole {calls = calls} start = omega (arith, none_yet calls (λ i. outside) (λ i. refl))
  Reach-Whole (later r st) = Step-Whole st (Reach-Whole r)

  -- However the calls interleave, the free permits, the calls in flight and the calls whose inner future
  -- failed add up to the maximum; so the calls in flight are at most the maximum less those that failed.
  pub permits_accounted :
      {max calls : ℕ} {s : System R E}
      → Reach max calls s
      → (s.sem.permits + total in_flight calls s.call + total leaked calls s.call ≡ max)
        × (total in_flight calls s.call ≤ max - total leaked calls s.call)
  permits_accounted r = let w = Reach-Whole r in (w, omega (arith, w))
