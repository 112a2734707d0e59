-- ===== src/CommandLine/Sequence.antt =====
-- Arguments in a row.
use Prim.Native.String.{String}
use forge_lock_free.Base.{◌≡◌, ◌⊎◌, inl, inr, refl, List, [], ◌∷◌, ◌++◌, arith}
use forge_lock_free.Chat.Json.{Outcome, done, threw}
use forge_lock_free.Tools.FileRead.{ℤ}
use forge_lock_free.CommandLine.{
  Options, flag_of, Stop, options, Round, plain, takes, stops, round, parse,
}

Round-cases :
    (r : Round)
    → ((q : Options) × (r ≡ plain q))
      ⊎ ((f : String → Outcome Options) × (r ≡ takes f))
      ⊎ ((s : Stop) × (r ≡ stops s))
Round-cases (plain q) = inl (q, refl)
Round-cases (takes f) = inr (inl (f, refl))
Round-cases (stops s) = inr (inr (s, refl))

Outcome-cases {ℓ} :
    {A : Type ℓ} (o : Outcome A) → ((t : String) × (o ≡ threw t)) ⊎ ((a : A) × (o ≡ done a))
Outcome-cases (threw t) = inl (t, refl)
Outcome-cases (done a) = inr (a, refl)

module _ (stoi : String → Outcome ℤ) where
  -- Arguments that are read to the end leave the rest to be read from their options on: what a later
  -- argument sets replaces what an earlier one set, and nothing else of the earlier ones matters.
  pub parse-append :
      (xs ys : List String) (o p : Options)
      → parse stoi xs o ≡ options p
      → parse stoi (xs ++ ys) o ≡ parse stoi ys p
  unfolding parse
  parse-append [] ys o p h = ground (arith, h)
  parse-append (arg ∷ []) [] o p h = h
  parse-append (arg ∷ []) (y ∷ ys) o p h = elim (Round-cases (round stoi (flag_of arg) arg o)) [
    | inl (q, e) ↦ ground (arith, e, h)
    | inr (inl (f, e)) ↦ ground (arith, e, h)
    | inr (inr (s, e)) ↦ ground (arith, e, h)
  ]
  parse-append (arg ∷ v ∷ xs) ys o p h = elim (Round-cases (round stoi (flag_of arg) arg o)) [
    | inl (q, e) ↦ ground (arith, e, h, parse-append (v ∷ xs) ys q p)
    | inr (inl (f, e)) ↦ elim (Outcome-cases (f v)) [
      | inl (t, g) ↦ ground (arith, e, g, h)
      | inr (q, g) ↦ ground (arith, e, g, h, parse-append xs ys q p)
    ]
    | inr (inr (s, e)) ↦ ground (arith, e, h)
  ]
