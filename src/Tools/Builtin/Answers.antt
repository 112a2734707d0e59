-- ===== src/Tools/Builtin/Answers.antt =====
-- The calculator from its arguments to its answer.
use Prim.Native.String.{String, ◌++◌ as ◌<>◌}
use forge_lock_free.Base.{
  ℕ, ◌-◌, if◌then◌else◌, Bool-cases, inl, inr, ◌≡◌, refl, ap, ◌∙◌, Option, some, none, [], ◌∷◌,
  false, length,
}
use forge_lock_free.Base.Text.{codes}
use forge_lock_free.Chat.{empty}
use forge_lock_free.Chat.Json.{done, Library, Laws}
use forge_lock_free.Tools.Registry.{Ended, returned, threw}
use forge_lock_free.Tools.Calculator.{
  Arithmetic, unexpected, expected_number, division_by_zero, missing_parenthesis, bad_number,
  Result, ok, failed, out_of_fuel, parse,
}
use forge_lock_free.Tools.Calculator.Grammar.{Expr, print_expr, eval_expr}
use forge_lock_free.Tools.Calculator.RoundTrip.{parse-print}
use forge_lock_free.Tools.Builtin.{Format, argument, message, show_result, calculate}

-- The answer to a value or a failure of the evaluation, for a text of `size` characters. A failure has
-- the number of the characters that were left.
abbrev pub answer : (a : Arithmetic) → Format a.Double → ℕ → Result a.Double → Option Ended
answer a format size (ok x) = some (
    returned (
      if format.is_whole x
      then if format.is_small x then format.whole_to_string x else format.to_string x
      else format.to_string x))
answer a format size (failed (unexpected left)) =
    some (threw ("Unexpected character at position " <> format.position_to_string (size - left)))
answer a format size (failed (expected_number left)) =
    some (threw ("Expected number at position " <> format.position_to_string (size - left)))
answer a format size (failed division_by_zero) = some (threw "Division by zero")
answer a format size (failed missing_parenthesis) = some (threw "Missing closing parenthesis")
answer a format size (failed bad_number) = some (threw format.stod_what)
answer a format size out_of_fuel = none

module _ (l : Library) (laws : Laws l) where
  argument-object :
      (text args : String)
      → l.parse args ≡ done (l.object (("expression", l.string text) ∷ []))
      → empty text ≡ false
      → argument l "expression" args ≡ done text
  unfolding argument
  argument-object text args p e =
      let v = laws.value-object (("expression", l.string text) ∷ []) "expression" "" in
      rw (argument, p) (rw v (rw (laws.get_string-string text) (rw e refl)))

  -- The calculator's handler, on arguments that hold an expression as the grammar prints it, answers with
  -- the expression's value, as an integer if it is whole and small and as a double if not, or throws the
  -- message of the failure that its evaluation meets, with the position where that has one.
  pub calculate-print :
      (a : Arithmetic) (format : Format a.Double) (e : Expr) (text args : String)
      → l.parse args ≡ done (l.object (("expression", l.string text) ∷ []))
      → empty text ≡ false
      → codes text ≡ print_expr e
      → calculate l a format args ≡ answer a format (length (codes text)) (eval_expr a e)
  unfolding calculate show_result message
  calculate-print a format e text args p q c =
      let r : parse a (codes text) ≡ eval_expr a e = ap (parse a) c ∙ parse-print a e in
      rw (calculate, argument-object text args p q) (rw r (answered (eval_expr a e)))
    where
      answered :
          (r : Result a.Double)
          → (elim r [
            | ok x ↦ some (returned (show_result l a format x))
            | failed f ↦ some (threw (message l a format (length (codes text)) f))
            | out_of_fuel ↦ none
          ])
            ≡ answer a format (length (codes text)) r
      answered (ok x) = elim (Bool-cases (format.is_whole x)) [
        | inl e ↦ rw e refl
        | inr e ↦ rw e refl
      ]
      answered (failed (unexpected left)) = refl
      answered (failed (expected_number left)) = refl
      answered (failed division_by_zero) = refl
      answered (failed missing_parenthesis) = refl
      answered (failed bad_number) = refl
      answered out_of_fuel = refl
