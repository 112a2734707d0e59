-- ===== src/Tools/Registry.antt =====
-- `ToolSpec`, `RegisteredTool` and `ToolRegistry`.
use Prim.Native.String.{String, ◌++◌ as ◌<>◌}
use text.Mathlib.Text.{◌==◌ as str_eq}
use text.Mathlib.TextEquality.{eq_iff}
use forge_lock_free.Base.{
  ℕ, ◌≡◌, refl, Bool, true, false, Option, none, some, List, [], ◌∷◌, map, if◌then◌else◌, arith,
}

-- What a handler's call comes to: the text that it returns, or the exception that it throws.
pub data Ended : Type 0 where
  returned threw : String → Ended

-- `Json` is the JSON library's type.
pub record ToolSpec (Json : Type 0) : Type 0 where
  pub name : String
  pub description : String
  pub parameters : Json
  pub timeout_ms : ℕ
  pub allow_parallel : Bool
  pub idempotent : Bool

pub record RegisteredTool (Json : Type 0) : Type 0 where
  pub spec : ToolSpec Json
  pub handler : String → Ended

pub data Result {ℓ} (A : Type ℓ) : Type ℓ where
  ok : A → Result A
  error : String → Result A

abbrev pub Registry : Type 0 → Type 0
Registry Json = List (String × RegisteredTool Json)

-- The error of `load_selection` for a name that is not registered.
abbrev pub not_registered : String → String → String
not_registered n path = "Tool '" <> n <> "' listed in " <> path <> " is not registered"

module _ {Json : Type 0} where
  unfoldable pub assign : String → RegisteredTool Json → Registry Json → Registry Json
  assign n t [] = (n, t) ∷ []
  assign n t ((k, u) ∷ r) = if str_eq k n then (n, t) ∷ r else (k, u) ∷ assign n t r

  unfoldable pub register_tool : ToolSpec Json → (String → Ended) → Registry Json → Registry Json
  unfolding assign
  register_tool spec handler r = assign spec.name (record { spec = spec; handler = handler }) r

  unfoldable pub find : String → Registry Json → Option (RegisteredTool Json)
  find n [] = none
  find n ((k, t) ∷ r) = if str_eq k n then some t else find n r

  unfoldable pub get : String → Registry Json → Result (RegisteredTool Json)
  get n r = elim (find n r) [ none ↦ error ("Unknown tool: " <> n) | some t ↦ ok t ]

  unfoldable pub has : String → Registry Json → Bool
  has n r = elim (find n r) [ none ↦ false | some t ↦ true ]

  unfoldable pub names : Registry Json → List String
  names r = map (λ e. e.0) r

  -- `load_selection` on the names that the file at `path` lists.
  unfoldable pub load_selection : Registry Json → String → List String → Result (List String)
  load_selection r path [] = ok []
  load_selection r path (n ∷ ns) =
      let rest = load_selection r path ns in
      if has n r
      then elim rest [ ok sel ↦ ok (n ∷ sel) | error e ↦ error e ]
      else error (not_registered n path)

  find-assign :
      (m : String) (t : RegisteredTool Json) (n : String) (r : Registry Json)
      → find n (assign m t r) ≡ (if str_eq m n then some t else find n r)
  unfolding find assign
  find-assign m t n [] = refl
  find-assign m t n ((k, u) ∷ r) =
      ground (arith, eq_iff k m, eq_iff m n, eq_iff k n, find-assign m t n r)

  -- After a registration the name has the new tool, whatever it had before, and every other name has
  -- what it had.
  pub find-register_tool :
      (spec : ToolSpec Json) (handler : String → Ended) (n : String) (r : Registry Json)
      → find n (register_tool spec handler r) ≡ (
          if str_eq spec.name n then some (record { spec = spec; handler = handler }) else find n r)
  unfolding register_tool
  find-register_tool spec handler n r =
      find-assign spec.name (record { spec = spec; handler = handler }) n r

  -- The first name of a list that is not registered.
  unfoldable pub first_missing : List String → Registry Json → Option String
  first_missing [] r = none
  first_missing (n ∷ ns) r = if has n r then first_missing ns r else some n

  -- A selection is accepted exactly when every name in it is registered, and is then the whole list in
  -- its order; otherwise the error names the first name that is not registered.
  pub load_selection_lem :
      (r : Registry Json) (path : String) (ns : List String)
      → load_selection r path ns
        ≡ elim (first_missing ns r) [ none ↦ ok ns | some n ↦ error (not_registered n path) ]
  unfolding load_selection first_missing
  load_selection_lem r path [] = refl
  load_selection_lem r path (n ∷ ns) = ground (arith, load_selection_lem r path ns)
