-- ===== src/CostTracker.antt =====
-- `CostTracker` of src/session/cost_tracker.h. Its counts are ints, from 0 on and below 2^31 here; doubles
-- are a parameter. A table is an association list, in the order in which its loops meet it.
pub mod Sums
use Prim.Native.String.{String}
use text.Mathlib.Text.{◌==◌ as str_eq}
use forge_lock_free.Base.{ℕ, ◌+◌, Option, none, some, List, [], ◌∷◌, if◌then◌else◌}
use forge_lock_free.Chat.Json.{Library, lookup}

-- `double`: `/ 1000.0` of an int, and the operations of the sums.
pub record Doubles : Type 1 where
  pub Double : Type 0
  pub zero_d : Double
  pub thousands : ℕ → Double
  pub mul : Double → Double → Double
  pub add : Double → Double → Double

pub record ModelPricing (D : Type 0) : Type 0 where
  pub prompt_cost_per_1k : D
  pub completion_cost_per_1k : D

pub record CostTracker (D : Type 0) : Type 0 where
  pub prompt_tokens : ℕ
  pub completion_tokens : ℕ
  pub pricing : List (String × ModelPricing D)
  pub per_model_tokens : List (String × (ℕ × ℕ))

abbrev pub init : {D : Type 0} → CostTracker D
init = record { prompt_tokens = 0; completion_tokens = 0; pricing = []; per_model_tokens = [] }

-- `table[key]` with a function of its value, which is `d` when the key is new.
unfoldable pub alter : {A : Type 0} → A → (A → A) → String → List (String × A) → List (String × A)
alter d f key [] = (key, f d) ∷ []
alter d f key ((k, a) ∷ t) = if str_eq k key then (k, f a) ∷ t else (k, a) ∷ alter d f key t

module _ {D : Type 0} where
  unfoldable pub set_pricing : String → ModelPricing D → CostTracker D → CostTracker D
  unfolding alter
  set_pricing model p t = record t { pricing = alter p (λ q. p) model t.pricing }

  -- `record`.
  unfoldable pub record_tokens : String → ℕ → ℕ → CostTracker D → CostTracker D
  unfolding alter
  record_tokens model prompt completion t = record t {
    prompt_tokens = t.prompt_tokens + prompt;
    completion_tokens = t.completion_tokens + completion;
    per_model_tokens =
        alter (0, 0) (λ n. (n.0 + prompt, n.1 + completion)) model t.per_model_tokens;
  }

module _ (d : Doubles) where
  open d use {Double, zero_d, thousands, mul, add}

  -- The loop of `total_cost`, with the cost so far.
  unfoldable pub cost_from :
      List (String × ModelPricing Double) → Double → List (String × (ℕ × ℕ)) → Double
  cost_from pricing cost [] = cost
  cost_from pricing cost ((model, n) ∷ t) =
      cost_from pricing
        (elim (lookup model pricing) [
          | none ↦ cost
          | some p ↦
              add (add cost (mul (thousands n.0) p.prompt_cost_per_1k))
                (mul (thousands n.1) p.completion_cost_per_1k)
        ])
        t

  unfoldable pub total_cost : CostTracker Double → Double
  unfolding cost_from
  total_cost t = cost_from t.pricing zero_d t.per_model_tokens

  -- `of_double` is the JSON library's number of a double.
  unfoldable pub to_json :
      (l : Library) → (of_double : Double → l.Json) → CostTracker Double → l.Json
  unfolding total_cost
  to_json l of_double t = l.object (
      ("prompt_tokens", l.number t.prompt_tokens)
      ∷ ("completion_tokens", l.number t.completion_tokens)
      ∷ ("total_cost", of_double (total_cost t))
      ∷ [])
