-- ===== src/ConcurrentMap.antt =====
-- The striped map of src/core/concurrent_map.h, with numbers for keys. An operation on one key holds
-- the lock of its stripe throughout, so it is one step; `size` and `keys` are those of a map at rest.
-- `hash` stands for `std::hash`, `count` for `NumStripes`; a stripe's table is an association list.
pub mod Contention
pub mod Laws
mod Tests
use forge_lock_free.Base.{
  ℕ, zero, suc, ◌+◌, ◌%◌, ◌≡◌, Bool, true, false, not, Option, none, some, List, [], ◌∷◌, ◌++◌,
  length, map, leb, ◌==◌, if◌then◌else◌, update,
}

-- The index of `get_stripe`.
abbrev pub stripe : (ℕ → ℕ) → ℕ → ℕ → ℕ
stripe hash count k = hash k % count

-- The tables of the stripes.
module _ {V : Type 0} where
  unfoldable pub assign : ℕ → V → List (ℕ × V) → List (ℕ × V)
  assign k v [] = (k, v) ∷ []
  assign k v ((j, u) ∷ t) = if j == k then (k, v) ∷ t else (j, u) ∷ assign k v t

  unfoldable pub lookup : ℕ → List (ℕ × V) → Option V
  lookup k [] = none
  lookup k ((j, u) ∷ t) = if j == k then some u else lookup k t

  unfoldable pub remove : ℕ → List (ℕ × V) → List (ℕ × V)
  remove k [] = []
  remove k ((j, u) ∷ t) = if j == k then remove k t else (j, u) ∷ remove k t

abbrev pub is_some {ℓ} : {A : Type ℓ} → Option A → Bool
is_some none = false
is_some (some a) = true

-- The stripes from the first on.
abbrev pub Stripes : Type 0 → Type 0
Stripes V = ℕ → List (ℕ × V)

module _ {V : Type 0} where
  -- The first `n` stripes, read while nothing else runs.
  unfoldable pub size_from : ℕ → Stripes V → ℕ
  size_from zero m = 0
  size_from (suc n) m = size_from n m + length (m n)

  unfoldable pub keys_from : ℕ → Stripes V → List ℕ
  keys_from zero m = []
  keys_from (suc n) m = keys_from n m ++ map (λ e. e.0) (m n)

module _ {V : Type 0} (hash : ℕ → ℕ) (count : ℕ) where
  unfoldable pub find : ℕ → Stripes V → Option V
  find k m = lookup k (m (stripe hash count k))

  unfoldable pub contains : ℕ → Stripes V → Bool
  contains k m = is_some (find k m)

  -- The result says whether the key is new.
  unfoldable pub insert : ℕ → V → Stripes V → Stripes V × Bool
  insert k v m =
      (update m (stripe hash count k) (assign k v (m (stripe hash count k))), not (contains k m))

  unfoldable pub erase : ℕ → Stripes V → Stripes V × Bool
  erase k m = (update m (stripe hash count k) (remove k (m (stripe hash count k))), contains k m)

  -- `with_value` is `find` for its callers; `mutate` applies `f` in place.
  unfoldable pub mutate : ℕ → (V → V) → Stripes V → Stripes V × Bool
  mutate k f m = elim (find k m) [
    | none ↦ (m, false)
    | some v ↦ (update m (stripe hash count k) (assign k (f v) (m (stripe hash count k))), true)
  ]

  -- Its two halves, the check and the insertion, with nothing between them.
  unfoldable pub insert_if_under : ℕ → V → ℕ → Stripes V → Stripes V × Bool
  insert_if_under k v max m =
      if leb max (size_from count m) then (m, false) else ((insert k v m).0, true)
