-- ===== src/Tools/Calculator/RoundTrip.antt =====
-- The parser of the calculator on printed expressions.
use forge_lock_free.Base.{
  ℕ, ◌+◌, ◌*◌, ◌<◌, ◌≡◌, refl, sym, ◌∙◌, ap, true, [], ◌∷◌, ◌++◌, append_assoc, append-nil, length,
  length-append, ◌==◌, if◌then◌else◌, arith,
}
use forge_lock_free.Base.Text.{Text}
use forge_lock_free.Tools.Calculator.{
  Arithmetic, Result, ok, failed, out_of_fuel, ◌>>=◌, skip_ws, head, peek, consume, divide, combine,
  close, parse_expr, expr_loop, parse_term, term_loop, parse_power, parse_unary, parse_atom, at_end,
  parse,
}
use forge_lock_free.Tools.Calculator.Grammar.{
  Expr, expr, Terms, no_terms, plus, minus, Term, term, Powers, no_powers, times, over, Power, base,
  raise, Unary, minus_sign, atom, Atom, paren, number, print_expr, print_terms, print_term,
  print_powers, print_power, print_unary, print_atom, print_term_pos, print_power_pos,
  print_unary_pos, eval_expr, eval_terms, eval_term, eval_powers, eval_power, eval_unary, eval_atom,
}
use forge_lock_free.Tools.Calculator.Steps.{
  ends_expr, ends_term, ends_power, ends_atom, head-terms, head-powers, by_fuel, before_rest,
  bind_step, bind_same, expr_loop-end, term_loop-end, parse_power-end, Reads, bind_parts,
  parse_unary-atom, close-paren, parse_atom-number,
}

module _ (a : Arithmetic) where
  open a use {Double}

  mutual
    unfolding print_expr eval_expr parse_expr divide combine close

    print_expr-Reads :
        (e : Expr) (rest : Text) (f : ℕ)
        → ends_expr (head rest) ≡ true
        → 7 * (length (print_expr e) + length rest) + 6 < f
        → Reads a (parse_expr a) (print_expr e) (eval_expr a e) rest f
    print_expr-Reads (expr t ts) rest f h g =
        by_fuel (Reads a (parse_expr a) (print_expr (expr t ts)) (eval_expr a (expr t ts)) rest) f g
          (λ f g.
            let l = length-append (print_term t) (print_terms ts) in
            let n = length-append (print_terms ts) rest in
            bind_parts a (parse_term a) f (print_term t) (print_terms ts) rest (eval_term a t)
              (λ (x, r). expr_loop a f x r) (λ x. eval_terms a x ts)
              (print_term-Reads t (print_terms ts ++ rest) f (head-terms ts rest h)
                (omega (arith, l, n)))
              (λ x. print_terms-Reads ts x rest f h (omega (arith, l, print_term_pos t))))

    print_terms-Reads :
        (ts : Terms) (x : Double) (rest : Text) (f : ℕ)
        → ends_expr (head rest) ≡ true
        → 7 * (length (print_terms ts) + length rest) < f
        → Reads a (λ f. expr_loop a f x) (print_terms ts) (eval_terms a x ts) rest f
    print_terms-Reads no_terms x rest f h g =
        by_fuel
          (Reads a (λ f. expr_loop a f x) (print_terms no_terms) (eval_terms a x no_terms) rest) f g
          (λ f g. expr_loop-end a f x rest h)
    print_terms-Reads (plus t ts) x rest f h g =
        by_fuel
          (Reads a (λ f. expr_loop a f x) (print_terms (plus t ts)) (eval_terms a x (plus t ts))
            rest)
          f g
          (λ f g.
            let l = length-append (print_term t) (print_terms ts) in
            let n = length-append (print_terms ts) rest in
            bind_parts a (parse_term a) f (print_term t) (print_terms ts) rest (eval_term a t)
              (λ (y, r). expr_loop a f (a.add x y) r) (λ y. eval_terms a (a.add x y) ts)
              (print_term-Reads t (print_terms ts ++ rest) f (head-terms ts rest h)
                (omega (arith, l, n)))
              (λ y. print_terms-Reads ts (a.add x y) rest f h (omega (arith, l, print_term_pos t))))
    print_terms-Reads (minus t ts) x rest f h g =
        by_fuel
          (Reads a (λ f. expr_loop a f x) (print_terms (minus t ts)) (eval_terms a x (minus t ts))
            rest)
          f g
          (λ f g.
            let l = length-append (print_term t) (print_terms ts) in
            let n = length-append (print_terms ts) rest in
            bind_parts a (parse_term a) f (print_term t) (print_terms ts) rest (eval_term a t)
              (λ (y, r). expr_loop a f (a.sub x y) r) (λ y. eval_terms a (a.sub x y) ts)
              (print_term-Reads t (print_terms ts ++ rest) f (head-terms ts rest h)
                (omega (arith, l, n)))
              (λ y. print_terms-Reads ts (a.sub x y) rest f h (omega (arith, l, print_term_pos t))))

    print_term-Reads :
        (t : Term) (rest : Text) (f : ℕ)
        → ends_term (head rest) ≡ true
        → 7 * (length (print_term t) + length rest) + 5 < f
        → Reads a (parse_term a) (print_term t) (eval_term a t) rest f
    print_term-Reads (term p ps) rest f h g =
        by_fuel (Reads a (parse_term a) (print_term (term p ps)) (eval_term a (term p ps)) rest) f g
          (λ f g.
            let l = length-append (print_power p) (print_powers ps) in
            let n = length-append (print_powers ps) rest in
            bind_parts a (parse_power a) f (print_power p) (print_powers ps) rest (eval_power a p)
              (λ (x, r). term_loop a f x r) (λ x. eval_powers a x ps)
              (print_power-Reads p (print_powers ps ++ rest) f (head-powers ps rest h)
                (omega (arith, l, n)))
              (λ x. print_powers-Reads ps x rest f h (omega (arith, l, print_power_pos p))))

    print_powers-Reads :
        (ps : Powers) (x : Double) (rest : Text) (f : ℕ)
        → ends_term (head rest) ≡ true
        → 7 * (length (print_powers ps) + length rest) < f
        → Reads a (λ f. term_loop a f x) (print_powers ps) (eval_powers a x ps) rest f
    print_powers-Reads no_powers x rest f h g =
        by_fuel
          (Reads a (λ f. term_loop a f x) (print_powers no_powers) (eval_powers a x no_powers) rest)
          f g (λ f g. term_loop-end a f x rest h)
    print_powers-Reads (times p ps) x rest f h g =
        by_fuel
          (Reads a (λ f. term_loop a f x) (print_powers (times p ps)) (eval_powers a x (times p ps))
            rest)
          f g
          (λ f g.
            let l = length-append (print_power p) (print_powers ps) in
            let n = length-append (print_powers ps) rest in
            bind_parts a (parse_power a) f (print_power p) (print_powers ps) rest (eval_power a p)
              (λ (y, r). term_loop a f (a.mul x y) r) (λ y. eval_powers a (a.mul x y) ps)
              (print_power-Reads p (print_powers ps ++ rest) f (head-powers ps rest h)
                (omega (arith, l, n)))
              (λ y.
                print_powers-Reads ps (a.mul x y) rest f h (omega (arith, l, print_power_pos p))))
    print_powers-Reads (over p ps) x rest f h g =
        by_fuel
          (Reads a (λ f. term_loop a f x) (print_powers (over p ps)) (eval_powers a x (over p ps))
            rest)
          f g
          (λ f g.
            let l = length-append (print_power p) (print_powers ps) in
            let n = length-append (print_powers ps) rest in
            bind_parts a (parse_power a) f (print_power p) (print_powers ps) rest (eval_power a p)
              (λ (y, r). divide a x y >>= λ z. term_loop a f z r)
              (λ y. divide a x y >>= λ z. eval_powers a z ps)
              (print_power-Reads p (print_powers ps ++ rest) f (head-powers ps rest h)
                (omega (arith, l, n)))
              (λ y.
                bind_same a (λ z. eval_powers a z ps) (divide a x y) rest
                  (λ z. print_powers-Reads ps z rest f h (omega (arith, l, print_power_pos p)))))

    print_power-Reads :
        (p : Power) (rest : Text) (f : ℕ)
        → ends_power (head rest) ≡ true
        → 7 * (length (print_power p) + length rest) + 4 < f
        → Reads a (parse_power a) (print_power p) (eval_power a p) rest f
    print_power-Reads (base u) rest f h g =
        by_fuel (Reads a (parse_power a) (print_power (base u)) (eval_power a (base u)) rest) f g
          (λ f g.
            parse_power-end a f (print_unary u ++ rest) rest (eval_unary a u) h
              (print_unary-Reads u rest f (ground arith) (omega arith)))
    print_power-Reads (raise u p) rest f h g =
        by_fuel (Reads a (parse_power a) (print_power (raise u p)) (eval_power a (raise u p)) rest)
          f g
          (λ f g.
            let l = length-append (print_unary u) (b'^' ∷ print_power p) in
            let n = length-append (b'^' ∷ print_power p) rest in
            bind_parts a (parse_unary a) f (print_unary u) (b'^' ∷ print_power p) rest
              (eval_unary a u)
              (λ (x, r).
                let more = parse_power a f (consume r) >>= λ (y, t). ok (a.pow x y, t) in
                if peek r == b'^' then more else ok (x, skip_ws r))
              (λ x. eval_power a p >>= λ y. ok (a.pow x y))
              (print_unary-Reads u (b'^' ∷ (print_power p ++ rest)) f refl (omega (arith, l, n)))
              (λ x.
                bind_step a (eval_power a p) rest rest (λ (y, t). ok (a.pow x y, t))
                  (λ y. ok (a.pow x y))
                  (print_power-Reads p rest f h (omega (arith, l, print_unary_pos u))) (λ y. refl)))

    print_unary-Reads :
        (u : Unary) (rest : Text) (f : ℕ)
        → ends_atom (head rest) ≡ true
        → 7 * (length (print_unary u) + length rest) + 3 < f
        → Reads a (parse_unary a) (print_unary u) (eval_unary a u) rest f
    print_unary-Reads (minus_sign u) rest f h g =
        by_fuel
          (Reads a (parse_unary a) (print_unary (minus_sign u)) (eval_unary a (minus_sign u)) rest)
          f g
          (λ f g.
            bind_step a (eval_unary a u) rest rest (λ (x, r). ok (a.neg x, r)) (λ x. ok (a.neg x))
              (print_unary-Reads u rest f h (omega arith)) (λ x. refl))
    print_unary-Reads (atom x) rest f h g =
        by_fuel (Reads a (parse_unary a) (print_unary (atom x)) (eval_unary a (atom x)) rest) f g
          (λ f g. parse_unary-atom a x rest f h (print_atom-Reads x rest f h (omega arith)))

    print_atom-Reads :
        (x : Atom) (rest : Text) (f : ℕ)
        → ends_atom (head rest) ≡ true
        → 7 * (length (print_atom x) + length rest) + 2 < f
        → Reads a (parse_atom a) (print_atom x) (eval_atom a x) rest f
    print_atom-Reads (paren e) rest f h g =
        by_fuel (Reads a (parse_atom a) (print_atom (paren e)) (eval_atom a (paren e)) rest) f g
          (λ f g.
            let l = length-append (print_expr e) (b')' ∷ []) in
            rw (append_assoc (print_expr e) (b')' ∷ []) rest) (
              close-paren a (eval_expr a e) rest
                (print_expr-Reads e (b')' ∷ rest) f refl (omega (arith, l)))))
    print_atom-Reads (number l) rest f h g =
        by_fuel (Reads a (parse_atom a) (print_atom (number l)) (eval_atom a (number l)) rest) f g
          (λ f g. parse_atom-number a l rest f h)

-- What the grammar prints is parsed to its value, or to the failure that its evaluation meets first.
pub parse-print : (a : Arithmetic) (e : Expr) → parse a (print_expr e) ≡ eval_expr a e
unfolding parse at_end skip_ws
parse-print a e =
    let s = print_expr e in
    let r = print_expr-Reads a e [] (7 * length s + 7) refl (omega arith) in
    ap (λ t. parse_expr a (7 * length s + 7) t >>= at_end a) (sym (append-nil s))
    ∙ (ap (λ q. q >>= at_end a) r ∙ with_value (eval_expr a e))
  where
    with_value : (m : Result a.Double) → (before_rest a [] m >>= at_end a) ≡ m
    with_value (ok x) = refl
    with_value (failed f) = refl
    with_value out_of_fuel = refl
