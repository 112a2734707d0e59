-- ===== src/Base/Count.antt =====
-- How often a number stands in a list.
use Prim.Native.Nat.{ℕ, zero, suc, ◌+◌, ◌≤◌, ◌<◌}
use mathlib.Core.Path.{◌≡◌, refl}
use mathlib.Core.List.{List, [], ◌∷◌, ◌++◌}
use native.Mathlib.Omega.{arith}
use forge_lock_free.Base.Tests.{◌==◌, if◌then◌else◌}
use forge_lock_free.Base.Lists.{length}

abbrev pub count : ℕ → List ℕ → ℕ
count t [] = 0
count t (u ∷ us) = (if t == u then 1 else 0) + count t us

pub count-append : (t : ℕ) (us vs : List ℕ) → count t (us ++ vs) ≡ count t us + count t vs
count-append t [] vs = omega arith
count-append t (u ∷ us) vs = omega (arith, count-append t us vs)

-- The entries of `l` that are in `p`.
abbrev pub covered : List ℕ → List ℕ → ℕ
covered [] l = 0
covered (x ∷ p) l = count x l + covered p l

covered-nil : (p : List ℕ) → covered p [] ≡ 0
covered-nil [] = refl
covered-nil (x ∷ p) = omega (arith, covered-nil p)

covered-cons : (p : List ℕ) (x : ℕ) (l : List ℕ) → covered p (x ∷ l) ≡ count x p + covered p l
covered-cons [] x l = refl
covered-cons (y ∷ p) x l = ground (arith, covered-cons p x l)

pub covered-le : (p l : List ℕ) → ((i : ℕ) → count i p ≤ 1) → covered p l ≤ length l
covered-le p [] h = omega (arith, covered-nil p)
covered-le p (x ∷ l) h = omega (arith, covered-cons p x l, covered-le p l h, h x)

-- Every entry of `l` is in `p`.
abbrev pub Within : List ℕ → List ℕ → Type 0
Within p [] = Unit
Within p (x ∷ l) = (0 < count x p) × Within p l

pub covered-Within :
    (p l : List ℕ) → ((i : ℕ) → count i p ≤ 1) → covered p l ≡ length l → Within p l
covered-Within p [] h e = tt
covered-Within p (x ∷ l) h e =
    let c = covered-cons p x l in
    let b = covered-le p l h in
    (omega (arith, c, b, e, h x), covered-Within p l h (omega (arith, c, b, e, h x)))

pub Within-covered : (p l : List ℕ) → Within p l → length l ≤ covered p l
Within-covered p [] h = omega arith
Within-covered p (x ∷ l) h = omega (arith, covered-cons p x l, Within-covered p l h.1, h.0)

-- The entries of a list below `n`.
abbrev pub below : ℕ → List ℕ → ℕ
below zero p = 0
below (suc n) p = below n p + count n p

pub below-nil : (n : ℕ) → below n [] ≡ 0
below-nil zero = refl
below-nil (suc n) = omega (arith, below-nil n)

below-beyond : (n x : ℕ) (p : List ℕ) → n ≤ x → below n (x ∷ p) ≡ below n p
below-beyond zero x p h = refl
below-beyond (suc n) x p h = ground (arith, below-beyond n x p)

pub below-cons : (n x : ℕ) (p : List ℕ) → x < n → below n (x ∷ p) ≡ below n p + 1
below-cons zero x p h = absurd (omega arith)
below-cons (suc n) x p h = ground (arith, below-cons n x p, below-beyond n x p)

pub below-le : (n : ℕ) (p : List ℕ) → ((i : ℕ) → count i p ≤ 1) → below n p ≤ n
below-le zero p h = omega arith
below-le (suc n) p h = omega (arith, below-le n p h, h n)

pub below-all : (n : ℕ) (p : List ℕ) → ((i : ℕ) → i < n → count i p ≡ 1) → below n p ≡ n
below-all zero p h = refl
below-all (suc n) p h = omega (arith, h n (omega arith), below-all n p (λ i k. h i (omega arith)))
