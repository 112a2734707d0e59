-- ===== src/CostTracker/Sums.antt =====
-- The totals against the tables of the models.
use Prim.Native.String.{String}
use forge_lock_free.Base.{ℕ, ◌+◌, ◌≡◌, List, [], ◌∷◌, arith}
use forge_lock_free.CostTracker.{CostTracker, alter, record_tokens}

abbrev pub prompts : List (String × (ℕ × ℕ)) → ℕ
prompts [] = 0
prompts ((k, n) ∷ t) = n.0 + prompts t

abbrev pub completions : List (String × (ℕ × ℕ)) → ℕ
completions [] = 0
completions ((k, n) ∷ t) = n.1 + completions t

alter-sums :
    (p c : ℕ) (key : String) (t : List (String × (ℕ × ℕ)))
    → (prompts (alter (0, 0) (λ n. (n.0 + p, n.1 + c)) key t) ≡ prompts t + p)
      × (completions (alter (0, 0) (λ n. (n.0 + p, n.1 + c)) key t) ≡ completions t + c)
unfolding alter
alter-sums p c key [] = omega arith
alter-sums p c key ((k, n) ∷ t) = ground (arith, alter-sums p c key t)

-- What was recorded, in a row.
abbrev pub recorded : {D : Type 0} → List (String × ℕ × ℕ) → CostTracker D → CostTracker D
recorded [] t = t
recorded ((model, p, c) ∷ calls) t = recorded calls (record_tokens model p c t)

-- After any row of calls of `record` the totals are the sums over the models, if they were before.
pub recorded-sums :
    {D : Type 0} (calls : List (String × ℕ × ℕ)) (t : CostTracker D)
    → t.prompt_tokens ≡ prompts t.per_model_tokens
    → t.completion_tokens ≡ completions t.per_model_tokens
    → ((recorded calls t).prompt_tokens ≡ prompts (recorded calls t).per_model_tokens)
      × ((recorded calls t).completion_tokens ≡ completions (recorded calls t).per_model_tokens)
unfolding record_tokens
recorded-sums [] t h g = (h, g)
recorded-sums ((model, p, c) ∷ calls) t h g =
    let (a, b) = alter-sums p c model t.per_model_tokens in
    recorded-sums calls (record_tokens model p c t) (omega (arith, a, h)) (omega (arith, b, g))
