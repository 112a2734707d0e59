-- ===== src/Tools/Calculator/Steps.antt =====
-- Single steps of the parser on printed text.
use forge_lock_free.Base.{
  ℕ, zero, suc, ◌<◌, ◌≡◌, refl, ◌∙◌, ap, Bool, true, false, not, ◌||◌, [], ◌∷◌, ◌++◌, append_assoc,
  append-nil, ◌==◌, if◌then◌else◌, arith, Option-cases, inl, inr,
}
use forge_lock_free.Base.Text.{Text, none_of}
use forge_lock_free.Tools.Calculator.{
  Arithmetic, Result, ok, failed, out_of_fuel, ◌>>=◌, skip_ws, head, tail, peek, consume,
  is_numeral, span, sign, exponent, scan, read_number, parse_number, close, expr_loop, term_loop,
  parse_power, parse_unary, parse_atom,
}
use forge_lock_free.Tools.Calculator.Grammar.{
  Lexeme, Terms, no_terms, plus, minus, Powers, no_powers, times, over, atom, Atom, paren, number,
  print_terms, print_powers, print_unary, print_atom, eval_unary, eval_atom, value_of,
}

-- The characters that may follow an expression, a term, a power and an atom; 0 is the end.
abbrev pub ends_expr : ℕ → Bool
ends_expr c = c == 0 || c == b')'

abbrev pub ends_term : ℕ → Bool
ends_term c = ends_expr c || c == b'+' || c == b'-'

abbrev pub ends_power : ℕ → Bool
ends_power c = ends_term c || c == b'*' || c == b'/'

abbrev pub ends_atom : ℕ → Bool
ends_atom c = ends_power c || c == b'^'

pub settled :
    (s : Text)
    → (head s == b' ') ≡ false
    → (skip_ws s ≡ s) × (peek s ≡ head s) × (consume s ≡ tail s)
unfolding skip_ws peek consume
settled [] h = (refl, refl, refl)
settled (c ∷ s) h = ground (arith, h)

pub atom-settled : (s : Text) → ends_atom (head s) ≡ true → (head s == b' ') ≡ false
atom-settled s h = ground arith

pub span-numeral :
    (l rest : Text)
    → none_of (λ c. not (is_numeral c)) l ≡ true
    → is_numeral (head rest) ≡ false
    → span is_numeral (l ++ rest) ≡ (l, rest)
unfolding span
span-numeral [] [] h k = refl
span-numeral [] (d ∷ r) h k = ground (arith, k)
span-numeral (c ∷ l) rest h k = ground (arith, span-numeral l rest)

pub exponent-stop :
    (rest : Text) → (head rest == b'e' || head rest == b'E') ≡ false → exponent rest ≡ ([], rest)
unfolding exponent
exponent-stop [] h = refl
exponent-stop (c ∷ s) h = rw h refl

pub sign-numeral : (c : ℕ) (s : Text) → is_numeral c ≡ true → sign (c ∷ s) ≡ ([], c ∷ s)
unfolding sign
sign-numeral c s h = ground arith

pub scan-lexeme :
    (l : Lexeme) (rest : Text)
    → ends_atom (head rest) ≡ true
    → scan ((l.first ∷ l.more) ++ rest) ≡ (l.first ∷ l.more, rest)
unfolding scan sign
scan-lexeme l rest h =
    let lex : Text = l.first ∷ l.more in
    rw
      (
        scan,
        sign-numeral l.first (l.more ++ rest) (ground arith),
        span-numeral lex rest l.plain (ground arith),
        exponent-stop rest (ground arith),
      )
      (ap (λ t. (t, rest)) (append-nil lex))

-- The heads of the prints.
pub head-atom : (x : Atom) (rest : Text) → (head (print_atom x ++ rest) == b'-') ≡ false
unfolding print_atom
head-atom (paren e) rest = refl
head-atom (number l) rest = ground (arith, l.plain)

pub head-solid : (x : Atom) (rest : Text) → (head (print_atom x ++ rest) == b' ') ≡ false
unfolding print_atom
head-solid (paren e) rest = refl
head-solid (number l) rest = ground (arith, l.plain)

pub head-terms :
    (ts : Terms) (rest : Text)
    → ends_expr (head rest) ≡ true
    → ends_term (head (print_terms ts ++ rest)) ≡ true
unfolding print_terms
head-terms no_terms rest h = ground arith
head-terms (plus t ts) rest h = refl
head-terms (minus t ts) rest h = refl

pub head-powers :
    (ps : Powers) (rest : Text)
    → ends_term (head rest) ≡ true
    → ends_power (head (print_powers ps ++ rest)) ≡ true
unfolding print_powers
head-powers no_powers rest h = ground arith
head-powers (times p ps) rest h = refl
head-powers (over p ps) rest h = refl

-- What is above a bound is not zero.
pub by_fuel :
    (P : ℕ → Type 0) (fuel : ℕ) {bound : ℕ}
    → bound < fuel
    → ((left : ℕ) → bound < suc left → P (suc left))
    → P fuel
by_fuel P (suc left) h step = step left h
by_fuel P zero h step = absurd (omega arith)

module _ (a : Arithmetic) where
  open a use {Double}

  -- A value, with what is left of the text.
  abbrev pub before_rest : Text → Result Double → Result (Double × Text)
  before_rest rest m = m >>= λ x. ok (x, rest)

  pub bind_step :
      {p : Result (Double × Text)} (m : Result Double) (r rest : Text)
      (k : Double × Text → Result (Double × Text)) (l : Double → Result Double)
      → p ≡ before_rest r m
      → ((x : Double) → k (x, r) ≡ before_rest rest (l x))
      → (p >>= k) ≡ before_rest rest (m >>= l)
  bind_step (ok x) r rest k l e h = ap (λ q. q >>= k) e ∙ h x
  bind_step (failed f) r rest k l e h = ap (λ q. q >>= k) e
  bind_step out_of_fuel r rest k l e h = ap (λ q. q >>= k) e

  pub bind_same :
      {k : Double → Result (Double × Text)} (l : Double → Result Double) (m : Result Double)
      (rest : Text)
      → ((x : Double) → k x ≡ before_rest rest (l x))
      → (m >>= k) ≡ before_rest rest (m >>= l)
  bind_same l (ok x) rest h = h x
  bind_same l (failed f) rest h = refl
  bind_same l out_of_fuel rest h = refl

  pub parse_number-lexeme :
      (l : Lexeme) (rest : Text)
      → ends_atom (head rest) ≡ true
      → parse_number a (print_atom (number l) ++ rest) ≡ before_rest rest (eval_atom a (number l))
  unfolding parse_number read_number value_of print_atom eval_atom
  parse_number-lexeme l rest h =
      let s : Text = (l.first ∷ l.more) ++ rest in
      let e : scan (skip_ws s) ≡ (l.first ∷ l.more, rest) =
        ap scan (settled s (ground arith)).0 ∙ scan-lexeme l rest h in
      ap (λ (p : Text × Text). read_number a p.0 p.1) e
      ∙ (elim (Option-cases (a.stod (l.first ∷ l.more))) [
        | inl e ↦ rw (read_number, value_of, e) refl
        | inr (x, e) ↦ rw (read_number, value_of, e) refl
      ])

  pub expr_loop-end :
      (f : ℕ) (x : Double) (rest : Text)
      → ends_expr (head rest) ≡ true
      → expr_loop a (suc f) x rest ≡ ok (x, rest)
  unfolding expr_loop
  expr_loop-end f x rest h =
      let (k, p, c) = settled rest (ground arith) in
      let t : (peek rest == b'+' || peek rest == b'-') ≡ false = rw p (ground arith) in
      rw (expr_loop, t, k) refl

  pub term_loop-end :
      (f : ℕ) (x : Double) (rest : Text)
      → ends_term (head rest) ≡ true
      → term_loop a (suc f) x rest ≡ ok (x, rest)
  unfolding term_loop
  term_loop-end f x rest h =
      let (k, p, c) = settled rest (ground arith) in
      let t : (peek rest == b'*' || peek rest == b'/') ≡ false = rw p (ground arith) in
      rw (term_loop, t, k) refl

  pub parse_power-end :
      (f : ℕ) (s rest : Text) (m : Result Double)
      → ends_power (head rest) ≡ true
      → parse_unary a f s ≡ before_rest rest m
      → parse_power a (suc f) s ≡ before_rest rest m
  unfolding parse_power
  parse_power-end f s rest m h e =
      let (k, p, c) = settled rest (ground arith) in
      let t : (peek rest == b'^') ≡ false = rw p (ground arith) in
      ap
        (λ q. q >>= λ (x, r).
          if peek r == b'^'
          then parse_power a f (consume r) >>= (λ (y, t). ok (a.pow x y, t))
          else ok (x, skip_ws r))
        e
      ∙ with_end m rest t k
    where
      with_end :
          (m : Result Double) (rest : Text)
          → (peek rest == b'^') ≡ false
          → skip_ws rest ≡ rest
          → (before_rest rest m >>= λ (x, r).
              if peek r == b'^'
              then parse_power a f (consume r) >>= (λ (y, t). ok (a.pow x y, t))
              else ok (x, skip_ws r))
            ≡ before_rest rest m
      with_end (ok x) rest t k = rw (t, k) refl
      with_end (failed f) rest t k = refl
      with_end out_of_fuel rest t k = refl

  abbrev pub Reader : Type 0
  Reader = ℕ → Text → Result (Double × Text)

  -- A reader takes a print off the front of a text.
  abbrev pub Reads : Reader → Text → Result Double → Text → ℕ → Type 0
  Reads p t m rest f = p f (t ++ rest) ≡ before_rest rest m

  pub bind_parts :
      (p : Reader) (f : ℕ) (t ts rest : Text) (m : Result Double)
      (k : Double × Text → Result (Double × Text)) (l : Double → Result Double)
      → Reads p t m (ts ++ rest) f
      → ((x : Double) → k (x, ts ++ rest) ≡ before_rest rest (l x))
      → (p f ((t ++ ts) ++ rest) >>= k) ≡ before_rest rest (m >>= l)
  bind_parts p f t ts rest m k l e h =
      rw (append_assoc t ts rest) (bind_step m (ts ++ rest) rest k l e h)

  pub parse_unary-atom :
      (x : Atom) (rest : Text) (f : ℕ)
      → ends_atom (head rest) ≡ true
      → Reads (parse_atom a) (print_atom x) (eval_atom a x) rest f
      → Reads (parse_unary a) (print_unary (atom x)) (eval_unary a (atom x)) rest (suc f)
  unfolding print_unary eval_unary parse_unary
  parse_unary-atom x rest f h e =
      let s : Text = print_atom x ++ rest in
      let (k, p, c) = settled s (head-solid x rest) in
      let t : (peek s == b'-') ≡ false = rw p (head-atom x rest) in rw (parse_unary, t, k) e

  pub close-paren :
      {p : Result (Double × Text)} (m : Result Double) (rest : Text)
      → p ≡ before_rest (b')' ∷ rest) m
      → (p >>= close a) ≡ before_rest rest m
  unfolding close peek consume skip_ws
  close-paren (ok x) rest e = ap (λ q. q >>= close a) e
  close-paren (failed f) rest e = ap (λ q. q >>= close a) e
  close-paren out_of_fuel rest e = ap (λ q. q >>= close a) e

  pub parse_atom-number :
      (l : Lexeme) (rest : Text) (f : ℕ)
      → ends_atom (head rest) ≡ true
      → Reads (parse_atom a) (print_atom (number l)) (eval_atom a (number l)) rest (suc f)
  unfolding parse_atom print_atom
  parse_atom-number l rest f h =
      let s : Text = print_atom (number l) ++ rest in
      let (k, p, c) = settled s (head-solid (number l) rest) in
      let t : (peek s == b'(') ≡ false = rw p (ground (arith, l.plain)) in
      rw (parse_atom, t, k) (parse_number-lexeme l rest h)
