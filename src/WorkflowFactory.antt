-- ===== src/WorkflowFactory.antt =====
-- The table of src/workflow/workflow_factory.h; `W` stands for `WorkflowConstructor` and for what
-- such a constructor makes.
use Prim.Native.String.{String, ◌++◌ as ◌<>◌}
use text.Mathlib.Text.{◌==◌ as str_eq}
use forge_lock_free.Base.{Bool, true, false, Option, none, some, List, [], ◌∷◌, map, if◌then◌else◌}
use forge_lock_free.Tools.Registry.{Result, ok, error}

abbrev pub Factory : Type 0 → Type 0
Factory W = List (String × W)

module _ {W : Type 0} where
  unfoldable pub register_workflow : String → W → Factory W → Factory W
  register_workflow n w [] = (n, w) ∷ []
  register_workflow n w ((k, u) ∷ f) =
      if str_eq k n then (n, w) ∷ f else (k, u) ∷ register_workflow n w f

  unfoldable pub constructor : String → Factory W → Option W
  constructor n [] = none
  constructor n ((k, w) ∷ f) = if str_eq k n then some w else constructor n f

  unfoldable pub create : String → Factory W → Result W
  create n f = elim (constructor n f) [ none ↦ error ("Unknown workflow: " <> n) | some w ↦ ok w ]

  unfoldable pub has : String → Factory W → Bool
  has n f = elim (constructor n f) [ none ↦ false | some w ↦ true ]

  unfoldable pub workflow_names : Factory W → List String
  workflow_names f = map (λ e. e.0) f
