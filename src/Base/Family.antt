-- ===== src/Base/Family.antt =====
-- Families indexed by numbers: threads with their local state, heap cells, ghost sequences.
use Prim.Native.Nat.{ℕ, zero, suc, ◌+◌, ◌-◌, ◌≤◌, ◌<◌}
use mathlib.Core.Path.{◌≡◌, refl, ap, ap₂, ◌∙◌}
use mathlib.Core.List.{List, [], ◌∷◌, ◌++◌}
use native.Mathlib.Omega.{arith}
use forge_lock_free.Base.Tests.{◌==◌, if◌then◌else◌}

abbrev pub update {ℓ} : {A : Type ℓ} → (ℕ → A) → ℕ → A → ℕ → A
update f i a j = if i == j then a else f j

-- The entries `f i`, …, `f (i + n - 1)`.
pub slice {ℓ} : {A : Type ℓ} → (ℕ → A) → ℕ → ℕ → List A
slice f i zero = []
slice f i (suc n) = f i ∷ slice f (suc i) n

module _ {ℓ} {A : Type ℓ} where
  slice-snoc : (f : ℕ → A) (i n : ℕ) → slice f i (suc n) ≡ slice f i n ++ f (i + n) ∷ []
  unfolding slice
  slice-snoc f i zero = ap (λ k. f k ∷ []) (omega arith)
  slice-snoc f i (suc n) = ground (arith, slice-snoc f (suc i) n)

  slice-ext :
      (f g : ℕ → A) (i n : ℕ)
      → ((k : ℕ) → i ≤ k → k < i + n → f k ≡ g k)
      → slice f i n ≡ slice g i n
  unfolding slice
  slice-ext f g i zero h = refl
  slice-ext f g i (suc n) h =
      ap₂ ◌∷◌ (h i (omega arith) (omega arith))
        (slice-ext f g (suc i) n (λ k a b. h k (omega arith) (omega arith)))

  -- The entries from `lo` up to, and without, `hi`.
  abbrev pub between : (ℕ → A) → ℕ → ℕ → List A
  between f lo hi = slice f lo (hi - lo)

  pub between_empty : (f : ℕ → A) (lo hi : ℕ) → hi ≤ lo → between f lo hi ≡ []
  between_empty f lo hi h = let e : hi - lo ≡ 0 = omega arith in rw e (unfold slice in refl)

  pub between_first :
      (f : ℕ → A) (lo hi : ℕ) → lo < hi → between f lo hi ≡ f lo ∷ between f (lo + 1) hi
  between_first f lo hi h =
      let e : hi - lo ≡ suc (hi - suc lo) = omega arith in
      let s : lo + 1 ≡ suc lo = omega arith in rw (e, s) (unfold slice in refl)

  pub between_last :
      (f : ℕ → A) (lo hi : ℕ) → lo ≤ hi → between f lo (suc hi) ≡ between f lo hi ++ f hi ∷ []
  between_last f lo hi h =
      let e : suc hi - lo ≡ suc (hi - lo) = omega arith in
      let s : lo + (hi - lo) ≡ hi = omega arith in
      rw e (slice-snoc f lo (hi - lo) ∙ ap (λ k. slice f lo (hi - lo) ++ f k ∷ []) s)

  pub between-ext :
      (f g : ℕ → A) (lo hi : ℕ)
      → ((k : ℕ) → lo ≤ k → k < hi → f k ≡ g k)
      → between f lo hi ≡ between g lo hi
  between-ext f g lo hi h = slice-ext f g lo (hi - lo) (λ k a b. h k a (omega arith))

  -- A weight summed over the threads before number `n`.
  abbrev pub total : (A → ℕ) → ℕ → (ℕ → A) → ℕ
  total w zero f = 0
  total w (suc n) f = total w n f + w (f n)

  total-update_beyond :
      (w : A → ℕ) (n i : ℕ) (f : ℕ → A) (a : A) → n ≤ i → total w n (update f i a) ≡ total w n f
  total-update_beyond w zero i f a h = refl
  total-update_beyond w (suc n) i f a h = ground (arith, total-update_beyond w n i f a)

  -- When one of the threads moves, only its own weight changes in the sum.
  pub total-update :
      (w : A → ℕ) (n i : ℕ) (f : ℕ → A) (a : A)
      → i < n
      → total w n (update f i a) + w (f i) ≡ total w n f + w a
  total-update w zero i f a h = absurd (omega arith)
  total-update w (suc n) i f a h =
      ground (arith, total-update w n i f a, total-update_beyond w n i f a)
