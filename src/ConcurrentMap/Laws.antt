-- ===== src/ConcurrentMap/Laws.antt =====
-- The striped map refines one map: the stripes and the hash do not show.
use forge_lock_free.Base.{
  ℕ, zero, suc, ◌+◌, ◌%◌, ◌<◌, ◌≡◌, refl, not, none, some, List, [], ◌∷◌, length, leb, ◌==◌,
  if◌then◌else◌, update, arith, inl, inr, Option-cases,
}
use native.Mathlib.Nat.{mod-lt}
use forge_lock_free.ConcurrentMap.{
  assign, lookup, remove, is_some, Stripes, stripe, find, contains, insert, erase, mutate,
  size_from,
}

module _ {V : Type 0} where
  pub lookup-assign :
      (k j : ℕ) (v : V) (t : List (ℕ × V))
      → lookup j (assign k v t) ≡ (if k == j then some v else lookup j t)
  unfolding lookup assign
  lookup-assign k j v [] = refl
  lookup-assign k j v ((i, u) ∷ t) = ground (arith, lookup-assign k j v t)

  pub lookup-remove :
      (k j : ℕ) (t : List (ℕ × V)) → lookup j (remove k t) ≡ (if k == j then none else lookup j t)
  unfolding lookup remove
  lookup-remove k j [] = ground arith
  lookup-remove k j ((i, u) ∷ t) = ground (arith, lookup-remove k j t)

  pub length-assign :
      (k : ℕ) (v : V) (t : List (ℕ × V))
      → length (assign k v t) ≡ length t + (if is_some (lookup k t) then 0 else 1)
  unfolding lookup assign
  length-assign k v [] = refl
  length-assign k v ((i, u) ∷ t) = ground (arith, length-assign k v t)

module _ {V : Type 0} where
  pub size_from-update :
      (n i : ℕ) (t : List (ℕ × V)) (m : Stripes V)
      → size_from n (update m i t) + (if leb n i then 0 else length (m i))
        ≡ size_from n m + (if leb n i then 0 else length t)
  unfolding size_from
  size_from-update zero i t m = ground arith
  size_from-update (suc n) i t m = ground (arith, size_from-update n i t m)

module _ {V : Type 0} (hash : ℕ → ℕ) (count : ℕ) where
  -- After an insertion the key has the new value, and every other key has what it had, whether or not
  -- the two share a stripe; and the result says whether the key was absent.
  pub find-insert :
      (k j : ℕ) (v : V) (m : Stripes V)
      → (find hash count j (insert hash count k v m).0
          ≡ (if k == j then some v else find hash count j m))
        × ((insert hash count k v m).1 ≡ not (is_some (find hash count k m)))
  unfolding find insert contains
  find-insert k j v m = (ground (arith, lookup-assign k j v (m (hash k % count))), refl)

  -- After an erasure the key is absent, and every other key has what it had; and the result says
  -- whether the key was there.
  pub find-erase :
      (k j : ℕ) (m : Stripes V)
      → (find hash count j (erase hash count k m).0
          ≡ (if k == j then none else find hash count j m))
        × ((erase hash count k m).1 ≡ is_some (find hash count k m))
  unfolding find erase contains
  find-erase k j m = (ground (arith, lookup-remove k j (m (hash k % count))), refl)

  -- `mutate` changes the value of its key alone, and only if it is there.
  pub find-mutate :
      (k j : ℕ) (f : V → V) (m : Stripes V)
      → (find hash count j (mutate hash count k f m).0
          ≡ elim (find hash count j m) [ none ↦ none | some v ↦ some (if k == j then f v else v) ])
        × ((mutate hash count k f m).1 ≡ is_some (find hash count k m))
  unfolding find mutate
  find-mutate k j f m =
      let i : ℕ = stripe hash count k in
      elim (Option-cases (lookup k (m i))) [
        | inl h ↦ ground (arith, h)
        | inr (v, h) ↦ ground (arith, h, lookup-assign k j (f v) (m i))
      ]

  -- An insertion makes the map larger by one if the key was absent, and leaves its size if not.
  pub size-insert :
      (k : ℕ) (v : V) (m : Stripes V)
      → 0 < count
      → size_from count (insert hash count k v m).0
        ≡ size_from count m + (if is_some (find hash count k m) then 0 else 1)
  unfolding insert find
  size-insert k v m h = ground (
    arith,
    size_from-update count (hash k % count) (assign k v (m (hash k % count))) m,
    length-assign k v (m (hash k % count)),
    mod-lt (hash k) h,
  )
