-- ===== src/PlanExecute/Ends.antt =====
-- How a run of plan-execute ends.
use Prim.Native.String.{String}
use forge_lock_free.Base.{
  ℕ, suc, ◌<◌, ◌^◌, ◌≡◌, refl, ◌⊎◌, inl, inr, true, false, not, Option, none, some, List, [], ◌∷◌,
  if◌then◌else◌, if_rule,
}
use forge_lock_free.Chat.{LlmResponse, message, empty}
use forge_lock_free.Session.{
  completed, waiting_for_llm, executing_tools, failed, Session, SessionConfig, make, is_terminal,
  count_step,
}
use forge_lock_free.React.{World, WorkflowResult, no_result, Flow, stop, proceed, raise, fail}
use forge_lock_free.React.{run as react_run}
use forge_lock_free.React.Loop.{Running, push-Fits, Ends, run-Ends}
use forge_lock_free.PlanExecute.{
  PlanStep, Outer, Steps, done, left, keep, step_result, add_tokens, sub_session, generate_plan,
  synthesize, execute_steps, conclude, run, plan_steps,
}

sub_session-Running :
    (cfg : SessionConfig) (now : ℕ) (task : String)
    → cfg.max_iterations < 2 ^ 32
    → Running (sub_session cfg now task)
unfolding sub_session make
sub_session-Running cfg now task h = record {
  open_answer = refl;
  fits = push-Fits _ (message "user" task);
  small = h;
}

pub sub_session-run :
    (w : World) (cfg : SessionConfig) (now : ℕ) (task : String)
    → cfg.max_iterations < 2 ^ 32
    → Ends w cfg.max_iterations (react_run w (sub_session cfg now task))
unfolding sub_session make
sub_session-run w cfg now task h =
    run-Ends w (sub_session cfg now task) (sub_session-Running cfg now task h) refl refl

-- How a run may end. After an exception the session is in no terminal state.
abbrev pub FlowOk : Flow → Type 0
FlowOk (proceed s r) = ⊥
FlowOk (raise s r) = is_terminal s ≡ false
FlowOk (stop s r) =
    (is_terminal s ≡ true)
    × (r.success ≡ elim s.state [ completed ↦ true | _ ↦ false ])
    × (r.success ≡ not (empty r.answer))
    × ((r.answer ≡ s.final_answer) ⊎ (r.error ≡ s.error))

abbrev pub RunOk : Option Flow → Type 0
RunOk none = ⊥
RunOk (some f) = FlowOk f

-- A result that is still as at the beginning, but for its tokens.
abbrev pub Blank : WorkflowResult → Type 0
Blank r = (r.success ≡ false) × (r.success ≡ not (empty r.answer))

module _ {Int : Type 0} where
  abbrev StepsOk : Option (Steps Int) → Type 0
  StepsOk none = ⊥
  StepsOk (some (done ps s r)) = Blank r × (s.state ≡ executing_tools)
  StepsOk (some (left f)) = FlowOk f

  keep-StepsOk : (p : PlanStep Int) (o : Option (Steps Int)) → StepsOk o → StepsOk (keep p o)
  unfolding keep
  keep-StepsOk p none h = h
  keep-StepsOk p (some (done ps s r)) h = h
  keep-StepsOk p (some (left f)) h = h

-- An answer of the LLM, as the two phases that ask for one pass it on.
abbrev pub ReplyOk {ℓ} : {A : Type ℓ} → Option (WorkflowResult × A) → Type 0
ReplyOk none = ◌≡◌ {A = ℕ} 0 0
ReplyOk (some (r, a)) = Blank r

pub reply-ReplyOk {ℓ} :
    {A : Type ℓ} (r : WorkflowResult)
    → Blank r
    → (o : Option LlmResponse) (f : LlmResponse → A)
    → ReplyOk (elim o [
      | none ↦ none
      | some a ↦ some (add_tokens a.prompt_tokens a.completion_tokens r, f a)
    ])
unfolding add_tokens
reply-ReplyOk r b none f = refl
reply-ReplyOk r b (some a) f = b

-- The end of a run, on what its last request gave.
pub end-FlowOk :
    (text : String) (s : Session) (r : WorkflowResult) (o : Option (WorkflowResult × String))
    → is_terminal s ≡ false
    → ReplyOk o
    → FlowOk (elim o [
      | none ↦ raise s r
      | some (q, answer) ↦
          if empty answer
          then stop (fail failed text s) (record q { error = text })
          else stop
              (record s { final_answer = answer; state = completed })
              (record q { success = true; answer = answer; steps_taken = s.step_count })
    ])
end-FlowOk text s r none t b = t
end-FlowOk text s r (some (q, answer)) t b =
    if_rule FlowOk (empty answer) (λ e. (refl, b.0, b.1, inr refl))
      λ e. (refl, refl, rw e refl, inl refl)

module _ {Int : Type 0} (w : Outer Int) where
  -- A step whose ReAct run ends in `o`, `rest` being the loop from the next step on.
  step-StepsOk :
      (world : World) (max : ℕ) (o : Option Flow) (p : PlanStep Int) (s : Session)
      (r : WorkflowResult) (rest : WorkflowResult → Option (Steps Int))
      → Ends world max o
      → s.state ≡ executing_tools
      → ((q : WorkflowResult) → StepsOk (rest q))
      → StepsOk (elim o [
        | none ↦ none
        | some (proceed t q) ↦ none
        | some (raise t q) ↦ some (left (raise (count_step s) r))
        | some (stop t q) ↦ keep (step_result q p) (rest q)
      ])
  step-StepsOk world max none p s r rest e t h = absurd e
  step-StepsOk world max (some (proceed u q)) p s r rest e t h = absurd e
  step-StepsOk world max (some (raise u q)) p s r rest e t h = rw t refl
  step-StepsOk world max (some (stop u q)) p s r rest e t h =
      keep-StepsOk (step_result q p) (rest q) (h q)

  execute_steps-StepsOk :
      (k : ℕ) (ps : List (PlanStep Int)) (s : Session) (r : WorkflowResult)
      → s.config.max_iterations < 2 ^ 32
      → s.state ≡ executing_tools
      → Blank r
      → StepsOk (execute_steps w k ps s r)
  unfolding execute_steps add_tokens
  execute_steps-StepsOk k [] s r h t b = (b, t)
  execute_steps-StepsOk k (p ∷ ps) s r h t b =
      if_rule StepsOk (w.cancel k) (λ _. (refl, b.0, b.1, inr refl))
        λ _.
          step-StepsOk (w.react k) s.config.max_iterations
            (react_run (w.react k) (sub_session s.config (w.now k) p.description)) p s r
            (λ q.
              execute_steps w (suc k) ps (count_step s)
                (add_tokens q.total_prompt_tokens q.total_completion_tokens r))
            (sub_session-run (w.react k) s.config (w.now k) p.description h) t
            (λ q.
              execute_steps-StepsOk (suc k) ps (count_step s)
                (add_tokens q.total_prompt_tokens q.total_completion_tokens r) h t b)

  conclude-FlowOk :
      (ps : List (PlanStep Int)) (s : Session) (r : WorkflowResult)
      → Blank r
      → FlowOk (conclude w ps s r)
  unfolding conclude synthesize
  conclude-FlowOk ps s r b =
      end-FlowOk "Synthesis failed" (record s { state = waiting_for_llm }) r
        (synthesize w (record s { state = waiting_for_llm }) ps r) refl
        (reply-ReplyOk r b _ (λ a. if empty a.error then a.message.content else ""))

  after-RunOk :
      (o : Option (Steps Int))
      → StepsOk o
      → RunOk (elim o [
        | none ↦ none
        | some (left f) ↦ some f
        | some (done qs t q) ↦ some (conclude w qs t q)
      ])
  after-RunOk none h = absurd h
  after-RunOk (some (left f)) h = h
  after-RunOk (some (done qs t q)) h = conclude-FlowOk qs t q h.0

  plan-RunOk :
      (s : Session) (o : Option (WorkflowResult × List (PlanStep Int)))
      → s.config.max_iterations < 2 ^ 32
      → is_terminal s ≡ false
      → ReplyOk o
      → RunOk (elim o [
        | none ↦ some (raise s no_result)
        | some (r, []) ↦ some (
            stop
              (fail failed "Failed to generate plan" s)
              (record r { error = "Failed to generate plan" }))
        | some (r, p ∷ ps) ↦
            elim (execute_steps w 0 (p ∷ ps) (record s { state = executing_tools }) r) [
              | none ↦ none
              | some (left f) ↦ some f
              | some (done qs t q) ↦ some (conclude w qs t q)
            ]
      ])
  plan-RunOk s none h t b = t
  plan-RunOk s (some (r, [])) h t b = (refl, b.0, b.1, inr refl)
  plan-RunOk s (some (r, p ∷ ps)) h t b =
      after-RunOk (execute_steps w 0 (p ∷ ps) (record s { state = executing_tools }) r)
        (execute_steps-StepsOk 0 (p ∷ ps) (record s { state = executing_tools }) r h refl b)

  -- A run of any session, whatever the LLM, the tools, the parser, the clients and the clock do: it ends.
  -- Either an exception leaves it, and the session is in no terminal state; or the session is in a
  -- terminal state, the result is a success exactly when that state is COMPLETED and exactly when there
  -- is an answer, and the result agrees with the session on the answer or on the error.
  pub run-RunOk : (s : Session) → s.config.max_iterations < 2 ^ 32 → RunOk (run w s)
  unfolding run generate_plan
  run-RunOk s h =
      let s' : Session = record s { state = waiting_for_llm } in
      plan-RunOk s' (generate_plan w s' no_result) h refl (
        reply-ReplyOk no_result (refl, refl) _
          (λ a. if empty a.error then plan_steps w a.message.content else []))
