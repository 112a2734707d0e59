-- ===== src/Tools/Calculator/Grammar.antt =====
-- The grammar that the comments of the parser give, its text, and its meaning.
use forge_lock_free.Base.{
  ℕ, ◌<◌, ◌≡◌, true, not, [], ◌∷◌, ◌++◌, length, length-append, Option, none, some, arith,
}
use forge_lock_free.Base.Text.{Text, none_of}
use forge_lock_free.Tools.Calculator.{
  Arithmetic, bad_number, Result, ok, failed, ◌>>=◌, is_numeral, divide,
}

-- A number without sign and exponent.
pub record Lexeme : Type 0 where
  pub first : ℕ
  pub more : Text
  pub plain : none_of (λ c. not (is_numeral c)) (first ∷ more) ≡ true

-- expr = term (('+' | '-') term)*, term = power (('*' | '/') power)*, power = unary ('^' power)?,
-- unary = '-' unary | atom, atom = '(' expr ')' | number.
mutual
  pub data Expr : Type 0 where
    expr : Term → Terms → Expr

  pub data Terms : Type 0 where
    no_terms : Terms
    plus minus : Term → Terms → Terms

  pub data Term : Type 0 where
    term : Power → Powers → Term

  pub data Powers : Type 0 where
    no_powers : Powers
    times over : Power → Powers → Powers

  pub data Power : Type 0 where
    base : Unary → Power
    raise : Unary → Power → Power

  pub data Unary : Type 0 where
    minus_sign : Unary → Unary
    atom : Atom → Unary

  pub data Atom : Type 0 where
    paren : Expr → Atom
    number : Lexeme → Atom

unfoldable mutual
  pub print_expr : Expr → Text
  print_expr (expr t ts) = print_term t ++ print_terms ts

  pub print_terms : Terms → Text
  print_terms no_terms = []
  print_terms (plus t ts) = b'+' ∷ (print_term t ++ print_terms ts)
  print_terms (minus t ts) = b'-' ∷ (print_term t ++ print_terms ts)

  pub print_term : Term → Text
  print_term (term p ps) = print_power p ++ print_powers ps

  pub print_powers : Powers → Text
  print_powers no_powers = []
  print_powers (times p ps) = b'*' ∷ (print_power p ++ print_powers ps)
  print_powers (over p ps) = b'/' ∷ (print_power p ++ print_powers ps)

  pub print_power : Power → Text
  print_power (base u) = print_unary u
  print_power (raise u p) = print_unary u ++ b'^' ∷ print_power p

  pub print_unary : Unary → Text
  print_unary (minus_sign u) = b'-' ∷ print_unary u
  print_unary (atom x) = print_atom x

  pub print_atom : Atom → Text
  print_atom (paren e) = b'(' ∷ (print_expr e ++ b')' ∷ [])
  print_atom (number l) = l.first ∷ l.more

mutual
  unfolding print_atom

  unary_pos : (u : Unary) → 0 < length (print_unary u)
  unary_pos (minus_sign u) = omega arith
  unary_pos (atom x) = atom_pos x

  atom_pos : (x : Atom) → 0 < length (print_atom x)
  atom_pos (paren e) = omega arith
  atom_pos (number l) = omega arith

pub print_unary_pos : (u : Unary) → 0 < length (print_unary u)
print_unary_pos u = unary_pos u

pub print_power_pos : (p : Power) → 0 < length (print_power p)
unfolding print_power
print_power_pos (base u) = unary_pos u
print_power_pos (raise u p) = omega (arith, length-append (print_unary u) (b'^' ∷ print_power p))

pub print_term_pos : (t : Term) → 0 < length (print_term t)
unfolding print_term
print_term_pos (term p ps) =
    omega (arith, print_power_pos p, length-append (print_power p) (print_powers ps))

-- Sums and products are taken from the left, powers from the right; the first failure from the left
-- is the result.
module _ (a : Arithmetic) where
  open a use {Double, add, sub, mul, pow, neg, stod}

  unfoldable pub value_of : Option Double → Result Double
  value_of none = failed bad_number
  value_of (some x) = ok x

  unfoldable mutual
    unfolding value_of

    pub eval_expr : Expr → Result Double
    eval_expr (expr t ts) = do x ← eval_term t; eval_terms x ts

    pub eval_terms : Double → Terms → Result Double
    eval_terms x no_terms = ok x
    eval_terms x (plus t ts) = do y ← eval_term t; eval_terms (add x y) ts
    eval_terms x (minus t ts) = do y ← eval_term t; eval_terms (sub x y) ts

    pub eval_term : Term → Result Double
    eval_term (term p ps) = do x ← eval_power p; eval_powers x ps

    pub eval_powers : Double → Powers → Result Double
    eval_powers x no_powers = ok x
    eval_powers x (times p ps) = do y ← eval_power p; eval_powers (mul x y) ps
    eval_powers x (over p ps) = do y ← eval_power p; z ← divide a x y; eval_powers z ps

    pub eval_power : Power → Result Double
    eval_power (base u) = eval_unary u
    eval_power (raise u p) = do x ← eval_unary u; y ← eval_power p; ok (pow x y)

    pub eval_unary : Unary → Result Double
    eval_unary (minus_sign u) = do x ← eval_unary u; ok (neg x)
    eval_unary (atom x) = eval_atom x

    pub eval_atom : Atom → Result Double
    eval_atom (paren e) = eval_expr e
    eval_atom (number l) = value_of (stod (l.first ∷ l.more))
