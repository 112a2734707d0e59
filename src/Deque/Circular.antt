-- ===== src/Deque/Circular.antt =====
-- `CircularBuffer`: the slot of index `i` is `i % capacity`.
use forge_lock_free.Base.{ℕ, zero, suc, ◌+◌, ◌-◌, ◌*◌, ◌%◌, ◌≤◌, ◌<◌, ◌≡◌, refl, ◌∙◌, arith, update}
use forge_lock_free.Base.Modulo.{mod_ne_of_close}

pub record Buffer (A : Type 0) : Type 0 where
  pub cap : ℕ
  pub slots : ℕ → A

module _ {A : Type 0} where
  -- Every slot starts as `T{}`.
  unfoldable pub fresh : ℕ → A → Buffer A
  fresh cap blank = record { cap = cap; slots = λ _. blank }

  unfoldable pub put : Buffer A → ℕ → A → Buffer A
  put b i v = record b { slots = update b.slots (i % b.cap) v }

  unfoldable pub get : Buffer A → ℕ → A
  get b i = b.slots (i % b.cap)

  -- The loop of `grow`: `n` entries from index `i` on.
  unfoldable pub copy : Buffer A → Buffer A → ℕ → ℕ → Buffer A
  copy from to i zero = to
  copy from to i (suc n) = copy from (put to i (get from i)) (suc i) n

  unfoldable pub grow : Buffer A → A → ℕ → ℕ → Buffer A
  grow b blank top bottom = copy b (fresh (b.cap * 2) blank) top (bottom - top)

  pub cap-put : (b : Buffer A) (i : ℕ) (v : A) → (put b i v).cap ≡ b.cap
  unfolding put
  cap-put b i v = refl

  pub get-put_self : (b : Buffer A) (i : ℕ) (v : A) → get (put b i v) i ≡ v
  unfolding get put
  get-put_self b i v = ground arith

  -- A write leaves the indices before it alone, as far back as the capacity reaches.
  pub get-put_before :
      (b : Buffer A) (i k : ℕ) (v : A) → k < i → i < k + b.cap → get (put b i v) k ≡ get b k
  unfolding get put
  get-put_before b i k v h l = ground (arith, mod_ne_of_close k i b.cap)

  cap-copy : (b to : Buffer A) (i n : ℕ) → (copy b to i n).cap ≡ to.cap
  unfolding copy
  cap-copy b to i zero = refl
  cap-copy b to i (suc n) = cap-copy b (put to i (get b i)) (suc i) n ∙ cap-put to i (get b i)

  get-copy_before :
      (b to : Buffer A) (i n k : ℕ) → k < i → i + n ≤ k + to.cap → get (copy b to i n) k ≡ get to k
  unfolding copy
  get-copy_before b to i zero k h l = refl
  get-copy_before b to i (suc n) k h l = ground (
    arith,
    cap-put to i (get b i),
    get-copy_before b (put to i (get b i)) (suc i) n k,
    get-put_before to i k (get b i),
  )

  get-copy :
      (b to : Buffer A) (i n k : ℕ)
      → i ≤ k
      → k < i + n
      → n ≤ to.cap
      → get (copy b to i n) k ≡ get b k
  unfolding copy
  get-copy b to i zero k h l c = absurd (omega arith)
  get-copy b to i (suc n) k h l c = ground (
    arith,
    cap-put to i (get b i),
    get-put_self to i (get b i),
    get-copy_before b (put to i (get b i)) (suc i) n k,
    get-copy b (put to i (get b i)) (suc i) n k,
  )

  pub cap-grow :
      (b : Buffer A) (blank : A) (top bottom : ℕ) → (grow b blank top bottom).cap ≡ b.cap * 2
  unfolding grow fresh
  cap-grow b blank top bottom = cap-copy b (fresh (b.cap * 2) blank) top (bottom - top)

  -- A grown buffer has the old entry at every index from `top` to `bottom`.
  pub get-grow :
      (b : Buffer A) (blank : A) (top bottom k : ℕ)
      → top ≤ k
      → k < bottom
      → bottom ≤ top + b.cap
      → get (grow b blank top bottom) k ≡ get b k
  unfolding grow fresh
  get-grow b blank top bottom k h l c =
      get-copy b (fresh (b.cap * 2) blank) top (bottom - top) k h (omega arith) (omega arith)
