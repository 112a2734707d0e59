-- ===== src/ConcurrentMap/Contention/Capacity.antt =====
-- How far the size can pass the bound.
use forge_lock_free.Base.{
  ℕ, zero, suc, ◌+◌, ◌%◌, ◌≤◌, ◌<◌, ◌≡◌, refl, length, ltb, if◌then◌else◌, ◌==◌, update, arith,
  subst, Bool-cases, inl, inr, [],
}
use forge_lock_free.Base.Family.{total, total-update}
use forge_lock_free.ConcurrentMap.{Stripes, size_from, insert, assign}
use forge_lock_free.ConcurrentMap.Laws.{length-assign, size_from-update}
use forge_lock_free.ConcurrentMap.Contention.{
  Call, outside, counting, passed, System, init, Step, begin, count_stripe, refuse, pass, put,
  Reach, start, later,
}

module _ {V : Type 0} (hash : ℕ → ℕ) (count threads max_size : ℕ) where
  -- A call that began below the bound may still insert.
  abbrev able : Call V → ℕ
  able outside = 0
  able (counting k v j acc b) = if ltb b max_size then 1 else 0
  able (passed k v b) = if ltb b max_size then 1 else 0

  -- What a thread has counted is not less than what the counted stripes had when it began.
  abbrev Ok : Stripes V → Call V → Type 0
  Ok m outside = Unit
  Ok m (counting k v j acc b) = (j ≤ count) × (b + size_from j m ≤ acc + size_from count m)
  Ok m (passed k v b) = b < max_size

  record Inv (s : System V) : Type 0 where
    ok : (i : ℕ) → Ok s.table (s.call i)
    bound : size_from count s.table + total able threads s.call < max_size + threads

  Ok-update :
      (m : Stripes V) (f : ℕ → Call V) (i : ℕ) (c : Call V)
      → Ok m c
      → ((j : ℕ) → Ok m (f j))
      → (j : ℕ) → Ok m (update f i c j)
  Ok-update m f i c h g j = elim (Bool-cases (i == j)) [ inl e ↦ rw e h | inr e ↦ rw e (g j) ]

  -- An insertion adds one entry at most, to a stripe that is counted.
  insert-size :
      (k : ℕ) (v : V) (m : Stripes V) (n : ℕ)
      → n ≤ count
      → (size_from n m ≤ size_from n (insert hash count k v m).0)
        × (size_from count (insert hash count k v m).0 ≤ size_from count m + 1)
        × (size_from n (insert hash count k v m).0 + size_from count m
            ≤ size_from n m + size_from count (insert hash count k v m).0)
  unfolding insert
  insert-size k v m n h =
      let p = hash k % count in
      ground (
        arith,
        size_from-update n p (assign k v (m p)) m,
        size_from-update count p (assign k v (m p)) m,
        length-assign k v (m p),
      )

  able-le : (c : Call V) → able c ≤ 1
  able-le outside = omega arith
  able-le (counting k v j acc b) = ground arith
  able-le (passed k v b) = ground arith

  total-le : (n : ℕ) (f : ℕ → Call V) → total able n f ≤ n
  total-le zero f = omega arith
  total-le (suc n) f = omega (arith, total-le n f, able-le (f n))

  Ok-insert :
      (k : ℕ) (v : V) (m : Stripes V) (c : Call V) → Ok m c → Ok (insert hash count k v m).0 c
  Ok-insert k v m outside h = tt
  Ok-insert k v m (counting a u j acc b) (h, g) = (h, omega (arith, g, insert-size k v m j h))
  Ok-insert k v m (passed a u b) h = h

  size_empty : (n : ℕ) (m : Stripes V) → ((i : ℕ) → m i ≡ []) → size_from n m ≡ 0
  unfolding size_from
  size_empty zero m h = refl
  size_empty (suc n) m h = ground (arith, size_empty n m h, h n)

  total-outside : (n : ℕ) (f : ℕ → Call V) → ((i : ℕ) → f i ≡ outside) → total able n f ≡ 0
  total-outside zero f h = refl
  total-outside (suc n) f h = ground (arith, total-outside n f h, h n)

  Step-Inv : {s t : System V} → Step hash count threads max_size s t → Inv s → Inv t
  Step-Inv {s} (begin i key value h e) v =
      let c : Call V = counting key value 0 0 (size_from count s.table) in
      record {
        ok = Ok-update s.table s.call i c (omega arith, unfold size_from in omega arith) v.ok;
        bound = ground (
          arith,
          e,
          v.bound,
          total-update able threads i s.call c h,
          total-le threads (update s.call i c),
        );
      }
  Step-Inv {s} (count_stripe i key value j acc begun h e l) v =
      let c : Call V = counting key value (suc j) (acc + length (s.table j)) begun in
      let o : (j ≤ count) × (begun + size_from j s.table ≤ acc + size_from count s.table) =
        subst (Ok s.table) e (v.ok i) in
      record {
        ok =
            Ok-update s.table s.call i c (omega arith, unfold size_from in omega (arith, o.0, o.1))
              v.ok;
        bound = ground (arith, e, v.bound, total-update able threads i s.call c h);
      }
  Step-Inv {s} (refuse i key value acc begun h e l) v = record {
    ok = Ok-update s.table s.call i outside tt v.ok;
    bound = ground (arith, e, v.bound, total-update able threads i s.call outside h);
  }
  Step-Inv {s} (pass i key value acc begun h e l) v =
      let o : Ok s.table (counting key value count acc begun) = subst (Ok s.table) e (v.ok i) in
      record {
        ok = Ok-update s.table s.call i (passed key value begun) (omega (arith, o.1)) v.ok;
        bound =
            ground
              (arith, e, v.bound, total-update able threads i s.call (passed key value begun) h);
      }
  Step-Inv {s} (put i key value begun h e) v =
      let o : begun < max_size = subst (Ok s.table) e (v.ok i) in
      record {
        ok =
            Ok-update (insert hash count key value s.table).0 s.call i outside tt
              (λ j. Ok-insert key value s.table (s.call j) (v.ok j));
        bound = ground (
          arith,
          e,
          o,
          v.bound,
          total-update able threads i s.call outside h,
          insert-size key value s.table 0,
        );
      }

  Reach-Inv : {s : System V} → 0 < threads → Reach hash count threads max_size s → Inv s
  unfolding init
  Reach-Inv h start = record {
    ok = λ i. tt;
    bound = omega (
      arith,
      size_empty count (λ i. []) (λ i. refl),
      total-outside threads (λ i. outside) (λ i. refl),
    );
  }
  Reach-Inv h (later r st) = Step-Inv st (Reach-Inv h r)

  -- However the stripe reads and the insertions of any number of threads interleave, while nothing is erased, the size
  -- stays below the bound plus the number of threads.
  pub size_bounded :
      {s : System V}
      → 0 < threads
      → Reach hash count threads max_size s
      → size_from count s.table < max_size + threads
  size_bounded h r = omega (arith, (Reach-Inv h r).bound)
