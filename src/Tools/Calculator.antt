-- ===== src/Tools/Calculator.antt =====
-- The expression parser of src/tools/builtin/calculator.h. Texts are lists of character codes, and the
-- state is the text from `pos_` on. The numbers and their operations are a parameter, since the source
-- computes with double.
pub mod Fuel
pub mod Grammar
pub mod RoundTrip
pub mod Steps
mod Tests
use forge_lock_free.Base.{
  ℕ, zero, suc, ◌+◌, ◌*◌, Bool, true, false, not, ◌&&◌, ◌||◌, Option, none, some, List, [], ◌∷◌,
  ◌++◌, length, leb, ◌==◌, if◌then◌else◌,
}
use forge_lock_free.Base.Text.{Text}

-- Double arithmetic, `std::pow` and `std::stod` (`none` where it throws).
pub record Arithmetic : Type 1 where
  pub Double : Type 0
  pub add : Double → Double → Double
  pub sub : Double → Double → Double
  pub mul : Double → Double → Double
  pub div : Double → Double → Double
  pub pow : Double → Double → Double
  pub neg : Double → Double
  pub is_zero : Double → Bool
  pub stod : Text → Option Double

-- The exceptions; `left` is the number of characters from the position that the message names on.
pub data Failure : Type 0 where
  unexpected expected_number : (left : ℕ) → Failure
  division_by_zero missing_parenthesis bad_number : Failure

-- `out_of_fuel` has no counterpart in the source.
pub data Result {ℓ} (A : Type ℓ) : Type ℓ where
  ok : A → Result A
  failed : Failure → Result A
  out_of_fuel : Result A

infixl 5 ◌>>=◌
abbrev pub ◌>>=◌ {ℓ κ} : {A : Type ℓ} {B : Type κ} → Result A → (A → Result B) → Result B
ok a >>= f = f a
failed e >>= f = failed e
out_of_fuel >>= f = out_of_fuel

unfoldable pub skip_ws : Text → Text
skip_ws [] = []
skip_ws (c ∷ s) = if c == b' ' then skip_ws s else c ∷ s

abbrev pub head : Text → ℕ
head [] = 0
head (c ∷ s) = c

abbrev pub tail : Text → Text
tail [] = []
tail (c ∷ s) = s

-- `peek`, and what is left once `consume` has taken that character.
unfoldable pub peek : Text → ℕ
unfolding skip_ws
peek s = head (skip_ws s)

unfoldable pub consume : Text → Text
unfolding skip_ws
consume s = tail (skip_ws s)

abbrev pub is_digit : ℕ → Bool
is_digit c = leb b'0' c && leb c b'9'

abbrev pub is_numeral : ℕ → Bool
is_numeral c = is_digit c || c == b'.'

abbrev pub is_sign : ℕ → Bool
is_sign c = c == b'-' || c == b'+'

-- The longest part at the front that meets a test, and what follows it.
unfoldable pub span : (ℕ → Bool) → Text → Text × Text
span p [] = ([], [])
span p (c ∷ s) = let (a, r) = span p s in if p c then (c ∷ a, r) else ([], c ∷ s)

unfoldable pub sign : Text → Text × Text
sign [] = ([], [])
sign (c ∷ s) = if is_sign c then (c ∷ [], s) else ([], c ∷ s)

-- The exponent: `e` or `E`, a sign or none, and digits.
unfoldable pub exponent : Text → Text × Text
unfolding span sign
exponent [] = ([], [])
exponent (c ∷ s) =
    let (g, t) = sign s in
    let (d, r) = span is_digit t in
    if c == b'e' || c == b'E' then (c ∷ (g ++ d), r) else ([], c ∷ s)

-- The lexeme of a number.
unfoldable pub scan : Text → Text × Text
unfolding span sign exponent
scan s =
    let (g, t) = sign s in
    let (d, u) = span is_numeral t in let (e, r) = exponent u in (g ++ (d ++ e), r)

module _ (a : Arithmetic) where
  open a use {Double, add, sub, mul, div, pow, neg, is_zero, stod}

  unfoldable pub read_number : Text → Text → Result (Double × Text)
  read_number [] rest = failed (expected_number (length rest))
  read_number (c ∷ s) rest = elim (stod (c ∷ s)) [
    | none ↦ failed bad_number
    | some v ↦ ok (v, rest)
  ]

  unfoldable pub parse_number : Text → Result (Double × Text)
  unfolding read_number scan
  parse_number s = read_number (scan (skip_ws s)).0 (scan (skip_ws s)).1

  unfoldable pub divide : Double → Double → Result Double
  divide x y = if is_zero y then failed division_by_zero else ok (div x y)

  -- The operator of a term.
  unfoldable pub combine : ℕ → Double → Double → Result Double
  unfolding divide
  combine op x y = if op == b'/' then divide x y else ok (mul x y)

  -- The closing parenthesis of an atom.
  unfoldable pub close : Double × Text → Result (Double × Text)
  close (v, s) = if peek s == b')' then ok (v, consume s) else failed missing_parenthesis

  -- Each call costs a unit of fuel.
  unfoldable mutual
    unfolding peek consume

    pub parse_expr : ℕ → Text → Result (Double × Text)
    parse_expr zero s = out_of_fuel
    parse_expr (suc f) s = do (x, r) ← parse_term f s; expr_loop f x r

    pub expr_loop : ℕ → Double → Text → Result (Double × Text)
    expr_loop zero x s = out_of_fuel
    expr_loop (suc f) x s =
        let more = do
          (y, r) ← parse_term f (consume s)
          expr_loop f (if peek s == b'+' then add x y else sub x y) r
        in if peek s == b'+' || peek s == b'-' then more else ok (x, skip_ws s)

    pub parse_term : ℕ → Text → Result (Double × Text)
    parse_term zero s = out_of_fuel
    parse_term (suc f) s = do (x, r) ← parse_power f s; term_loop f x r

    pub term_loop : ℕ → Double → Text → Result (Double × Text)
    term_loop zero x s = out_of_fuel
    term_loop (suc f) x s =
        let more = do (y, r) ← parse_power f (consume s); z ← combine (peek s) x y; term_loop f z r
        in if peek s == b'*' || peek s == b'/' then more else ok (x, skip_ws s)

    pub parse_power : ℕ → Text → Result (Double × Text)
    parse_power zero s = out_of_fuel
    parse_power (suc f) s = do
      (x, r) ← parse_unary f s
      let more = do (y, t) ← parse_power f (consume r); ok (pow x y, t)
      if peek r == b'^' then more else ok (x, skip_ws r)

    pub parse_unary : ℕ → Text → Result (Double × Text)
    parse_unary zero s = out_of_fuel
    parse_unary (suc f) s =
        let more = do (x, r) ← parse_unary f (consume s); ok (neg x, r)
        in if peek s == b'-' then more else parse_atom f (skip_ws s)

    pub parse_atom : ℕ → Text → Result (Double × Text)
    parse_atom zero s = out_of_fuel
    parse_atom (suc f) s =
        let more = do p ← parse_expr f (consume s); close p
        in if peek s == b'(' then more else parse_number (skip_ws s)

  -- What must stand behind the expression.
  unfoldable pub at_end : Double × Text → Result Double
  at_end (v, s) = elim (skip_ws s) [ [] ↦ ok v | c ∷ r ↦ failed (unexpected (length (c ∷ r))) ]

  unfoldable pub parse : Text → Result Double
  unfolding at_end
  parse s = do p ← parse_expr (7 * length s + 7) s; at_end p
