-- ===== src/Tools/Calculator/Tests.antt =====
-- Texts parsed with natural numbers for the doubles, and the theorems at some of them.
use forge_lock_free.Base.{
  ℕ, zero, suc, ◌+◌, ◌*◌, ◌-◌, ◌≡◌, ◌≢◌, refl, sym, true, Option, some, [], ◌∷◌, ◌==◌,
  if◌then◌else◌,
}
use forge_lock_free.Base.Text.{Text, codes}
use forge_lock_free.Tools.Calculator.{
  Arithmetic, ok, failed, out_of_fuel, unexpected, missing_parenthesis, expected_number,
  division_by_zero, parse, close, parse_expr, parse_number, combine, divide, at_end,
}
use forge_lock_free.Chat.Instance.{library, library-Laws, Value, object, fields, string}
use forge_lock_free.Tools.Registry.{returned, threw}
use forge_lock_free.Tools.Builtin.{Format, argument, show_result, calculate, web_search}
use forge_lock_free.Tools.Builtin.Answers.{answer, calculate-print}
use forge_lock_free.Tools.Calculator.Fuel.{parse-ne-out_of_fuel}
use forge_lock_free.Tools.Calculator.Grammar.{
  Expr, expr, no_terms, plus, term, no_powers, times, base, Unary, atom, paren, number, print_expr,
  eval_expr,
}
use forge_lock_free.Tools.Calculator.RoundTrip.{parse-print}

unfoldable power : ℕ → ℕ → ℕ
power x zero = 1
power x (suc n) = x * power x n

unfoldable digits : ℕ → Text → Option ℕ
digits n [] = some n
digits n (c ∷ s) = if c == b'.' then some n else digits (n * 10 + (c - b'0')) s

-- `neg` adds a thousand, and division subtracts.
abbrev naturals : Arithmetic
naturals = record {
  Double = ℕ;
  add = λ x y. x + y;
  sub = λ x y. x - y;
  mul = λ x y. x * y;
  div = λ x y. x - y;
  pow = power;
  neg = λ x. x + 1000;
  is_zero = λ x. x == 0;
  stod = digits 0;
}

product_first : parse naturals (codes "2 + 3 * 4") ≡ ok 14
unfolding parse parse_expr parse_number combine divide digits power at_end close
product_first = refl

power_right : parse naturals (codes "2^3^2") ≡ ok 512
unfolding parse parse_expr parse_number combine divide digits power at_end close
power_right = refl

minus_binds : parse naturals (codes "-2^2") ≡ ok 1004004
unfolding parse parse_expr parse_number combine divide digits power at_end close
minus_binds = refl

left_to_right : parse naturals (codes "9 - 3 - 2") ≡ ok 4
unfolding parse parse_expr parse_number combine divide digits power at_end close
left_to_right = refl

no_closing : parse naturals (codes "(1+2") ≡ failed missing_parenthesis
unfolding parse parse_expr parse_number combine divide digits power at_end close
no_closing = refl

behind : parse naturals (codes "1 2") ≡ failed (unexpected 1)
unfolding parse parse_expr parse_number combine divide digits power at_end close
behind = refl

empty : parse naturals (codes "") ≡ failed (expected_number 0)
unfolding parse parse_expr parse_number combine divide digits power at_end close
empty = refl

zero_divisor : parse naturals (codes "1/0") ≡ failed division_by_zero
unfolding parse parse_expr parse_number combine divide digits power at_end close
zero_divisor = refl

-- A second point ends what is read of the number, without an error.
two_points : parse naturals (codes "1.2.3") ≡ ok 1
unfolding parse parse_expr parse_number combine divide digits power at_end close
two_points = refl

abbrev two : Unary
two = atom (number record { first = b'2'; more = []; plain = refl })

abbrev three : Unary
three = atom (number record { first = b'3'; more = b'0' ∷ []; plain = refl })

-- 2*(30+2)
abbrev product : Expr
product =
    expr
      (term (base two) (
        times
          (base (
            atom (
              paren
                (expr (term (base three) no_powers) (plus (term (base two) no_powers) no_terms)))))
          no_powers))
      no_terms

printed : print_expr product ≡ codes "2*(30+2)"
unfolding print_expr
printed = refl

parse-ne-out_of_fuel_example : parse naturals (codes "2^(3+4)*-5") ≢ out_of_fuel
parse-ne-out_of_fuel_example = parse-ne-out_of_fuel naturals (codes "2^(3+4)*-5")

parse-print_example : parse naturals (print_expr product) ≡ eval_expr naturals product
parse-print_example = parse-print naturals product

-- The arguments of one call, and numbers that are shown as one text.
abbrev known : Value
known = object (fields (("expression", string "2*(30+2)") ∷ []))

abbrev shown : Format ℕ
shown = record {
  is_whole = λ n. n == 64;
  is_small = λ n. true;
  whole_to_string = λ n. "64";
  to_string = λ n. "other";
  position_to_string = λ n. "0";
  stod_what = "stod";
}

calculates : calculate (library known) naturals shown "" ≡ some (returned "64")
unfolding calculate argument show_result parse parse_expr parse_number combine divide digits power
    at_end close
calculates = refl

no_query : web_search (library known) "" ≡ threw "Missing 'query' parameter"
unfolding web_search argument
no_query = refl

calculate-print_example :
    calculate (library known) naturals shown ""
    ≡ answer naturals shown 8 (eval_expr naturals product)
calculate-print_example =
    calculate-print (library known) (library-Laws known) naturals shown product "2*(30+2)" "" refl
      refl (sym printed)
