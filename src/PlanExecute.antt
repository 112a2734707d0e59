-- ===== src/PlanExecute.antt =====
-- `PlanExecuteWorkflow` of src/workflow/plan_execute.cpp: plan, one ReAct run for each step,
-- synthesis. The JSON parser, `int` and `std::to_string` are parameters. Logging is left out.
pub mod Ends
mod Tests
use Prim.Native.String.{String, ◌++◌ as ◌<>◌}
use text.Mathlib.Text.{◌==◌ as str_eq}
use forge_lock_free.Base.{
  ℕ, zero, suc, ◌+◌, ◌%◌, ◌^◌, Bool, true, false, not, Option, none, some, List, [], ◌∷◌, ◌++◌,
  if◌then◌else◌,
}
use forge_lock_free.Chat.{Message, LlmResponse, message, empty}
use forge_lock_free.Conversation.{push}
use forge_lock_free.Session.{
  SessionConfig, waiting_for_llm, executing_tools, completed, failed, cancelled, Session, make,
  count_step,
}
use forge_lock_free.React.{World, WorkflowResult, no_result, Flow, stop, proceed, raise, fail}
use forge_lock_free.React.{run as react_run}

-- `Int` is the type of the ids.
pub record PlanStep (Int : Type 0) : Type 0 where
  pub id : Int
  pub description : String
  pub result : String

-- What a run meets: the LLM's answers to the plan request and to the synthesis (`none` if the future
-- throws), and for each step by its number: whether `cancel_requested` is set, the time, and the
-- surroundings of its ReAct run. `parse` is the JSON parser on the LLM's text: the entries of "steps"
-- that could be read, each with its "id" if it has one, and whether an exception stopped it there.
pub record Outer (Int : Type 0) : Type 0 where
  pub plan : List Message → Option LlmResponse
  pub answer : List Message → Option LlmResponse
  pub cancel : ℕ → Bool
  pub now : ℕ → ℕ
  pub react : ℕ → World
  pub parse : String → List (Option Int × String) × Bool
  pub int : ℕ → Int
  pub to_string : Int → String

-- The first message of the user.
unfoldable pub first_user : List Message → List Message
first_user [] = []
first_user (m ∷ ms) = if str_eq m.role "user" then m ∷ [] else first_user ms

unfoldable pub add_tokens : ℕ → ℕ → WorkflowResult → WorkflowResult
add_tokens p c r = record r {
  total_prompt_tokens = (r.total_prompt_tokens + p) % 2 ^ 32;
  total_completion_tokens = (r.total_completion_tokens + c) % 2 ^ 32;
}

-- The local session of a step.
unfoldable pub sub_session : SessionConfig → ℕ → String → Session
sub_session cfg now task =
    let s : Session = make 0 cfg now in
    record s {
      history =
          push
            (push s.history (
              message "system"
                "You are a helpful assistant with access to tools. Complete the following task."))
            (message "user" task);
    }

-- How the loop over the steps is left: at its end, with the steps' results, or before.
pub data Steps (Int : Type 0) : Type 0 where
  done : List (PlanStep Int) → Session → WorkflowResult → Steps Int
  left : Flow → Steps Int

module _ {Int : Type 0} where
  unfoldable pub keep : PlanStep Int → Option (Steps Int) → Option (Steps Int)
  keep p (some (done ps s r)) = some (done (p ∷ ps) s r)
  keep p o = o

  -- A step's result.
  unfoldable pub step_result : WorkflowResult → PlanStep Int → PlanStep Int
  step_result q p = record p { result = if q.success then q.answer else "Failed: " <> q.error }

  unfoldable pub step_summary : (Int → String) → List (PlanStep Int) → String
  step_summary to_string [] = ""
  step_summary to_string (p ∷ ps) =
      "Step "
      <> to_string p.id
      <> ": "
      <> p.description
      <> "\nResult: "
      <> p.result
      <> "\n\n"
      <> step_summary to_string ps

module _ {Int : Type 0} (w : Outer Int) where
  -- The entries that were read, from number `n` on, without an "id" taking their number.
  unfoldable pub read_steps : ℕ → List (Option Int × String) → List (PlanStep Int)
  read_steps n [] = []
  read_steps n ((id, d) ∷ es) =
      record { id = elim id [ none ↦ w.int n | some i ↦ i ]; description = d; result = "" }
      ∷ read_steps (suc n) es

  -- With the single step that an exception adds.
  unfoldable pub plan_steps : String → List (PlanStep Int)
  plan_steps text =
      let whole : PlanStep Int = record { id = w.int 1; description = text; result = "" } in
      let steps : List (PlanStep Int) = read_steps 1 (w.parse text).0 in
      if (w.parse text).1 then steps ++ whole ∷ [] else steps

  -- `none` is an exception from the LLM's future.
  unfoldable pub generate_plan :
      Session → WorkflowResult → Option (WorkflowResult × List (PlanStep Int))
  generate_plan s r =
      elim (w.plan (
        message "system" (
          "You are a planning assistant. Break down the user's request into a sequence of steps. "
          <> "Respond with ONLY a JSON object in this format:\n"
          <> "{\"steps\": [{\"id\": 1, \"description\": \"step description\"}, ...]}"
          <> "\nDo not include any other text.")
        ∷ first_user s.history.messages)) [
          | none ↦ none
          | some a ↦ some (
            add_tokens a.prompt_tokens a.completion_tokens r,
            if empty a.error then plan_steps a.message.content else [],
          )
        ]

  unfoldable pub synthesize :
      Session → List (PlanStep Int) → WorkflowResult → Option (WorkflowResult × String)
  synthesize s ps r =
      elim (w.answer (
        message "system" (
            "You are a helpful assistant. Synthesize the results of the following steps into a final, "
            <> "coherent answer.")
          ∷ first_user s.history.messages
        ++ message "user" (
            "Here are the results of each step:\n\n"
            <> step_summary w.to_string ps
            <> "\nPlease synthesize these into a final answer.")
          ∷ [])) [
            | none ↦ none
            | some a ↦ some (
              add_tokens a.prompt_tokens a.completion_tokens r,
              if empty a.error then a.message.content else "",
            )
          ]

  -- The loop over the steps, from number `k` on; `none` means that a ReAct run was out of fuel.
  unfoldable pub execute_steps :
      ℕ → List (PlanStep Int) → Session → WorkflowResult → Option (Steps Int)
  execute_steps k [] s r = some (done [] s r)
  execute_steps k (p ∷ ps) s r =
      if w.cancel k
      then some (
          left (
            stop (fail cancelled "Cancelled by user" s) (record r { error = "Cancelled by user" })))
      else elim (react_run (w.react k) (sub_session s.config (w.now k) p.description)) [
        | none ↦ none
        | some (proceed t q) ↦ none
        | some (raise t q) ↦ some (left (raise (count_step s) r))
        | some (stop t q) ↦ keep (step_result q p) (
            execute_steps (suc k) ps (count_step s)
              (add_tokens q.total_prompt_tokens q.total_completion_tokens r))
      ]

  -- The third phase.
  unfoldable pub conclude : List (PlanStep Int) → Session → WorkflowResult → Flow
  conclude ps s r =
      let s' : Session = record s { state = waiting_for_llm } in
      elim (synthesize s' ps r) [
        | none ↦ raise s' r
        | some (q, answer) ↦
            if empty answer
            then stop (fail failed "Synthesis failed" s') (record q { error = "Synthesis failed" })
            else stop (record s' { final_answer = answer; state = completed })
                (record q { success = true; answer = answer; steps_taken = s'.step_count })
      ]

  unfoldable pub run : Session → Option Flow
  run s =
      let s' : Session = record s { state = waiting_for_llm } in
      elim (generate_plan s' no_result) [
        | none ↦ some (raise s' no_result)
        | some (r, []) ↦ some (
            stop (fail failed "Failed to generate plan" s')
              (record r { error = "Failed to generate plan" }))
        | some (r, p ∷ ps) ↦
            elim (execute_steps 0 (p ∷ ps) (record s' { state = executing_tools }) r) [
              | none ↦ none
              | some (left f) ↦ some f
              | some (done qs t q) ↦ some (conclude qs t q)
            ]
      ]
