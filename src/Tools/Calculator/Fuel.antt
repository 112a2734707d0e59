-- ===== src/Tools/Calculator/Fuel.antt =====
-- The fuel of the calculator's parser: seven units for each character, since seven calls at most stand
-- between two characters taken.
use forge_lock_free.Base.{
  ℕ, zero, suc, ◌+◌, ◌*◌, ◌≤◌, ◌<◌, ◌≡◌, ◌≢◌, refl, Bool, true, false, ◌||◌, [], ◌∷◌, ◌++◌, length,
  length-append, ◌==◌, if◌then◌else◌, arith, Option-cases, ◌⊎◌, inl, inr,
}
use forge_lock_free.Base.Text.{Text}
use forge_lock_free.Tools.Calculator.{
  Arithmetic, Failure, Result, ok, failed, out_of_fuel, ◌>>=◌, skip_ws, peek, consume, is_digit,
  is_numeral, span, sign, exponent, scan, read_number, parse_number, combine, close, parse_expr,
  expr_loop, parse_term, term_loop, parse_power, parse_unary, parse_atom, at_end, parse,
}

-- The call kept within its fuel, and if it has a value then `P` holds of it.
pub data Ensures {ℓ} {A : Type ℓ} (P : A → Type 0) : Result A → Type ℓ where
  holds : {a : A} → P a → Ensures P (ok a)
  rejected : {e : Failure} → Ensures P (failed e)

module _ {ℓ} {A : Type ℓ} {P : A → Type 0} where
  Ensures-if :
      (b : Bool) {x y : Result A}
      → (b ≡ true → Ensures P x)
      → (b ≡ false → Ensures P y)
      → Ensures P (if b then x else y)
  Ensures-if true hx hy = hx refl
  Ensures-if false hx hy = hy refl

  Ensures-bind {κ} :
      {B : Type κ} {Q : B → Type 0} {r : Result A} {f : A → Result B}
      → Ensures P r
      → ((a : A) → P a → Ensures Q (f a))
      → Ensures Q (r >>= f)
  Ensures-bind (holds {a} h) k = k a h
  Ensures-bind rejected k = rejected

  Ensures-weaken :
      {Q : A → Type 0} {r : Result A} → ((a : A) → P a → Q a) → Ensures P r → Ensures Q r
  Ensures-weaken k (holds {a} h) = holds (k a h)
  Ensures-weaken k rejected = rejected

  pub Ensures-out_of_fuel : {r : Result A} → Ensures P r → r ≢ out_of_fuel
  Ensures-out_of_fuel (holds h) = cc
  Ensures-out_of_fuel rejected = cc

List-cases : (s : Text) → (s ≡ []) ⊎ ((c : ℕ) × (r : Text) × (s ≡ c ∷ r))
List-cases [] = inl refl
List-cases (c ∷ r) = inr (c, r, refl)

length-skip_ws : (s : Text) → length (skip_ws s) ≤ length s
unfolding skip_ws
length-skip_ws [] = omega arith
length-skip_ws (c ∷ s) = ground (arith, length-skip_ws s)

-- Taking a character that is there leaves fewer.
length-consume : (s : Text) (c : ℕ) → 0 < c → (peek s == c) ≡ true → length (consume s) < length s
unfolding peek consume skip_ws
length-consume [] c h e = ground arith
length-consume (d ∷ s) c h e = ground (arith, length-consume s c h)

length-span : (p : ℕ → Bool) (s : Text) → length (span p s).0 + length (span p s).1 ≡ length s
unfolding span
length-span p [] = omega arith
length-span p (c ∷ s) = ground (arith, length-span p s)

length-sign : (s : Text) → length (sign s).0 + length (sign s).1 ≡ length s
unfolding sign
length-sign [] = omega arith
length-sign (c ∷ s) = ground arith

length-exponent : (s : Text) → length (exponent s).0 + length (exponent s).1 ≡ length s
unfolding exponent
length-exponent [] = omega arith
length-exponent (c ∷ s) = ground (
  arith,
  length-sign s,
  length-span is_digit (sign s).1,
  length-append (sign s).0 (span is_digit (sign s).1).0,
)

length-scan : (s : Text) → length (scan s).0 + length (scan s).1 ≡ length s
unfolding scan
length-scan s =
    let t = (sign s).1 in
    let u = (span is_numeral t).1 in
    omega (
      arith,
      length-sign s,
      length-span is_numeral t,
      length-exponent u,
      length-append (sign s).0 ((span is_numeral t).0 ++ (exponent u).0),
      length-append (span is_numeral t).0 (exponent u).0,
    )

module _ (a : Arithmetic) where
  open a use {Double}

  -- Whatever is read takes a character at least.
  abbrev Shorter : Text → Double × Text → Type 0
  Shorter s (x, r) = length r < length s

  abbrev NotLonger : Text → Double × Text → Type 0
  NotLonger s (x, r) = length r ≤ length s

  read_number-Ensures :
      (lex rest : Text)
      → Ensures (λ (x, r). length r < length lex + length rest) (read_number a lex rest)
  unfolding read_number
  read_number-Ensures [] rest = rejected
  read_number-Ensures (c ∷ s) rest = elim (Option-cases (a.stod (c ∷ s))) [
    | inl e ↦ rw (read_number, e) rejected
    | inr (x, e) ↦ rw (read_number, e) (holds (omega arith))
  ]

  parse_number-Ensures : (s : Text) → Ensures (Shorter s) (parse_number a s)
  unfolding parse_number
  parse_number-Ensures s =
      Ensures-weaken (λ x h. omega (arith, h, length-scan (skip_ws s), length-skip_ws s))
        (read_number-Ensures (scan (skip_ws s)).0 (scan (skip_ws s)).1)

  close-Ensures : (x : Double) (s : Text) → Ensures (Shorter s) (close a (x, s))
  unfolding close
  close-Ensures x s =
      Ensures-if (peek s == b')') (λ e. holds (length-consume s b')' (omega arith) e))
        (λ _. rejected)

  combine-Ensures : (op : ℕ) (x y : Double) → Ensures (λ _. ◌≡◌ {A = ℕ} 0 0) (combine a op x y)
  unfolding combine
  combine-Ensures op x y =
      Ensures-if (op == b'/') (λ _. Ensures-if (a.is_zero y) (λ _. rejected) (λ _. holds refl))
        (λ _. holds refl)

  consumed :
      (s : Text) (c d : ℕ)
      → 0 < c
      → 0 < d
      → (peek s == c || peek s == d) ≡ true
      → length (consume s) < length s
  consumed s c d h g e = ground (arith, length-consume s c h, length-consume s d g)

  at_end-Ensures : (x : Double) (s : Text) → Ensures (λ _. ◌≡◌ {A = ℕ} 0 0) (at_end a (x, s))
  unfolding at_end
  at_end-Ensures x s = elim (List-cases (skip_ws s)) [
    | inl e ↦ rw (at_end, e) (holds refl)
    | inr (c, r, e) ↦ rw (at_end, e) rejected
  ]

  mutual
    unfolding parse_expr

    parse_expr-Ensures :
        (f : ℕ) (s : Text) → 7 * length s + 6 < f → Ensures (Shorter s) (parse_expr a f s)
    parse_expr-Ensures zero s h = absurd (omega arith)
    parse_expr-Ensures (suc f) s h =
        Ensures-bind (parse_term-Ensures f s (omega arith)) λ (x, r) p.
          Ensures-weaken (λ (y, t) q. omega arith) (expr_loop-Ensures f x r (omega arith))

    expr_loop-Ensures :
        (f : ℕ) (x : Double) (s : Text)
        → 7 * length s < f
        → Ensures (NotLonger s) (expr_loop a f x s)
    expr_loop-Ensures zero x s h = absurd (omega arith)
    expr_loop-Ensures (suc f) x s h =
        Ensures-if (peek s == b'+' || peek s == b'-')
          (λ e.
            let c = consumed s b'+' b'-' (omega arith) (omega arith) e in
            Ensures-bind (parse_term-Ensures f (consume s) (omega (arith, c))) λ (y, r) p.
              Ensures-weaken (λ (z, t) q. omega (arith, c))
                (expr_loop-Ensures f _ r (omega (arith, c))))
          (λ _. holds (length-skip_ws s))

    parse_term-Ensures :
        (f : ℕ) (s : Text) → 7 * length s + 5 < f → Ensures (Shorter s) (parse_term a f s)
    parse_term-Ensures zero s h = absurd (omega arith)
    parse_term-Ensures (suc f) s h =
        Ensures-bind (parse_power-Ensures f s (omega arith)) λ (x, r) p.
          Ensures-weaken (λ (y, t) q. omega arith) (term_loop-Ensures f x r (omega arith))

    term_loop-Ensures :
        (f : ℕ) (x : Double) (s : Text)
        → 7 * length s < f
        → Ensures (NotLonger s) (term_loop a f x s)
    term_loop-Ensures zero x s h = absurd (omega arith)
    term_loop-Ensures (suc f) x s h =
        Ensures-if (peek s == b'*' || peek s == b'/')
          (λ e.
            let c = consumed s b'*' b'/' (omega arith) (omega arith) e in
            Ensures-bind (parse_power-Ensures f (consume s) (omega (arith, c))) λ (y, r) p.
              Ensures-bind (combine-Ensures (peek s) x y) λ z _.
                Ensures-weaken (λ (w, t) q. omega (arith, c))
                  (term_loop-Ensures f z r (omega (arith, c))))
          (λ _. holds (length-skip_ws s))

    parse_power-Ensures :
        (f : ℕ) (s : Text) → 7 * length s + 4 < f → Ensures (Shorter s) (parse_power a f s)
    parse_power-Ensures zero s h = absurd (omega arith)
    parse_power-Ensures (suc f) s h =
        Ensures-bind (parse_unary-Ensures f s (omega arith)) λ (x, r) p.
          Ensures-if (peek r == b'^')
            (λ e.
              let c = length-consume r b'^' (omega arith) e in
              Ensures-bind (parse_power-Ensures f (consume r) (omega (arith, c)))
                λ (y, t) q. holds (omega (arith, c)))
            (λ _. holds (omega (arith, length-skip_ws r)))

    parse_unary-Ensures :
        (f : ℕ) (s : Text) → 7 * length s + 3 < f → Ensures (Shorter s) (parse_unary a f s)
    parse_unary-Ensures zero s h = absurd (omega arith)
    parse_unary-Ensures (suc f) s h =
        Ensures-if (peek s == b'-')
          (λ e.
            let c = length-consume s b'-' (omega arith) e in
            Ensures-bind (parse_unary-Ensures f (consume s) (omega (arith, c)))
              λ (x, r) p. holds (omega (arith, c)))
          (λ _.
            Ensures-weaken (λ (x, r) p. omega (arith, length-skip_ws s))
              (parse_atom-Ensures f (skip_ws s) (omega (arith, length-skip_ws s))))

    parse_atom-Ensures :
        (f : ℕ) (s : Text) → 7 * length s + 2 < f → Ensures (Shorter s) (parse_atom a f s)
    parse_atom-Ensures zero s h = absurd (omega arith)
    parse_atom-Ensures (suc f) s h =
        Ensures-if (peek s == b'(')
          (λ e.
            let c = length-consume s b'(' (omega arith) e in
            Ensures-bind (parse_expr-Ensures f (consume s) (omega (arith, c)))
              λ (x, r) p. Ensures-weaken (λ (y, t) q. omega (arith, c)) (close-Ensures x r))
          (λ _.
            Ensures-weaken (λ (x, r) p. omega (arith, length-skip_ws s))
              (parse_number-Ensures (skip_ws s)))

  -- On every input the parser comes to a value or to one of the source's exceptions: its fuel is enough.
  pub parse-ne-out_of_fuel : (s : Text) → parse a s ≢ out_of_fuel
  unfolding parse
  parse-ne-out_of_fuel s = Ensures-out_of_fuel (
      Ensures-bind (parse_expr-Ensures (7 * length s + 7) s (omega arith))
        λ (x, r) p. at_end-Ensures x r)
