-- ===== src/MapReduce.antt =====
-- `MapReduceWorkflow` of src/workflow/map_reduce.cpp: decompose, one ReAct run for each sub-task on the
-- pool, reduce. The sub-tasks are taken in their order here; where one throws, what those after it add is
-- left out. Parallel has them at once, on what they share. The JSON parser, `int` and `std::to_string`
-- are parameters. Logging is left out.
pub mod Ends
pub mod Parallel
mod Tests
use Prim.Native.String.{String, ◌++◌ as ◌<>◌}
use forge_lock_free.Base.{
  ℕ, zero, suc, ◌+◌, Bool, true, false, Option, none, some, List, [], ◌∷◌, ◌++◌, if◌then◌else◌,
}
use forge_lock_free.Chat.{Message, LlmResponse, message, empty}
use forge_lock_free.Session.{
  waiting_for_llm, executing_tools, completed, failed, cancelled, Session, count_step,
}
use forge_lock_free.React.{World, WorkflowResult, no_result, Flow, stop, proceed, raise, fail}
use forge_lock_free.React.{run as react_run}
use forge_lock_free.PlanExecute.{first_user, add_tokens, sub_session}

-- `Int` is the type of the ids.
pub record SubTask (Int : Type 0) : Type 0 where
  pub id : Int
  pub description : String
  pub result : String
  pub success : Bool

-- What a run meets: the LLM's answers to the two requests (`none` if the future throws), for each
-- sub-task by its number whether `cancel_requested` is set when it begins, the time, and the
-- surroundings of its ReAct run; whether `cancel_requested` is set once all have ended; and the
-- parser on the LLM's text: the entries of "tasks" that could be read, each with its "id" if it has
-- one, and whether an exception stopped it there.
pub record Outer (Int : Type 0) : Type 0 where
  pub tasks : List Message → Option LlmResponse
  pub answer : List Message → Option LlmResponse
  pub cancel : ℕ → Bool
  pub now : ℕ → ℕ
  pub react : ℕ → World
  pub cancel_after : Bool
  pub parse : String → List (Option Int × String) × Bool
  pub int : ℕ → Int
  pub to_string : Int → String

-- Whether all futures gave their values, or one of them threw.
pub data Tasks (Int : Type 0) : Type 0 where
  done : List (SubTask Int) → Session → WorkflowResult → Tasks Int
  threw : Session → WorkflowResult → Tasks Int

module _ {Int : Type 0} where
  unfoldable pub keep : SubTask Int → Option (Tasks Int) → Option (Tasks Int)
  keep t (some (done ts s r)) = some (done (t ∷ ts) s r)
  keep t o = o

  -- A sub-task's result.
  unfoldable pub task_result : WorkflowResult → SubTask Int → SubTask Int
  task_result q t = record t {
    success = q.success;
    result = if q.success then q.answer else q.error;
  }

  unfoldable pub task_summary : (Int → String) → List (SubTask Int) → String
  task_summary to_string [] = ""
  task_summary to_string (t ∷ ts) =
      "Sub-task "
      <> to_string t.id
      <> ": "
      <> t.description
      <> "\nResult: "
      <> t.result
      <> "\nSuccess: "
      <> (if t.success then "yes" else "no")
      <> "\n\n"
      <> task_summary to_string ts

module _ {Int : Type 0} (w : Outer Int) where
  -- The entries that were read, from number `n` on, without an "id" taking their number.
  unfoldable pub read_tasks : ℕ → List (Option Int × String) → List (SubTask Int)
  read_tasks n [] = []
  read_tasks n ((id, d) ∷ es) =
      record {
        id = elim id [ none ↦ w.int n | some i ↦ i ];
        description = d;
        result = "";
        success = false;
      }
      ∷ read_tasks (suc n) es

  -- With the single task that an exception adds.
  unfoldable pub parsed_tasks : String → List (SubTask Int)
  parsed_tasks text =
      let whole : SubTask Int = record {
        id = w.int 1;
        description = text;
        result = "";
        success = false;
      } in
      let tasks : List (SubTask Int) = read_tasks 1 (w.parse text).0 in
      if (w.parse text).1 then tasks ++ whole ∷ [] else tasks

  -- `none` is an exception from the LLM's future.
  unfoldable pub decompose : Session → WorkflowResult → Option (WorkflowResult × List (SubTask Int))
  decompose s r =
      elim (w.tasks (
        message "system" (
          "You are a task decomposition assistant. Break down the user's request into independent "
          <> "sub-tasks that can be executed in parallel. "
          <> "Respond with ONLY a JSON object in this format:\n"
          <> "{\"tasks\": [{\"id\": 1, \"description\": \"sub-task description\"}, ...]}"
          <> "\nDo not include any other text.")
        ∷ first_user s.history.messages)) [
          | none ↦ none
          | some a ↦ some (
            add_tokens a.prompt_tokens a.completion_tokens r,
            if empty a.error then parsed_tasks a.message.content else [],
          )
        ]

  unfoldable pub reduce :
      Session → List (SubTask Int) → WorkflowResult → Option (WorkflowResult × String)
  reduce s ts r =
      elim (w.answer (
        message "system" (
            "You are a helpful assistant. Aggregate the results of the following sub-tasks into a final, "
            <> "coherent answer.")
          ∷ first_user s.history.messages
        ++ message "user" (
            "Here are the sub-task results:\n\n"
            <> task_summary w.to_string ts
            <> "\nPlease aggregate these into a final answer.")
          ∷ [])) [
            | none ↦ none
            | some a ↦ some (
              add_tokens a.prompt_tokens a.completion_tokens r,
              if empty a.error then a.message.content else "",
            )
          ]

  -- The sub-tasks from number `k` on; `none` means that a ReAct run was out of fuel.
  unfoldable pub execute_tasks :
      ℕ → List (SubTask Int) → Session → WorkflowResult → Option (Tasks Int)
  execute_tasks k [] s r = some (done [] s r)
  execute_tasks k (t ∷ ts) s r =
      let rest = execute_tasks (suc k) ts s r in
      if w.cancel k
      then keep t rest
      else elim (react_run (w.react k) (sub_session s.config (w.now k) t.description)) [
        | none ↦ none
        | some (proceed u q) ↦ none
        | some (raise u q) ↦ some (threw (count_step s) r)
        | some (stop u q) ↦ keep (task_result q t) (
            execute_tasks (suc k) ts (count_step s)
              (add_tokens q.total_prompt_tokens q.total_completion_tokens r))
      ]

  -- From the second test of `cancel_requested` on.
  unfoldable pub conclude : List (SubTask Int) → Session → WorkflowResult → Flow
  conclude ts s r =
      let s' : Session = record s { state = waiting_for_llm } in
      if w.cancel_after
      then stop (fail cancelled "Cancelled by user" s) (record r { error = "Cancelled by user" })
      else elim (reduce s' ts r) [
        | none ↦ raise s' r
        | some (q, answer) ↦
            if empty answer
            then stop (fail failed "Reduce phase failed" s')
                (record q { error = "Reduce phase failed" })
            else stop (record s' { final_answer = answer; state = completed })
                (record q { success = true; answer = answer; steps_taken = s'.step_count })
      ]

  unfoldable pub run : Session → Option Flow
  run s =
      let s' : Session = record s { state = waiting_for_llm } in
      elim (decompose s' no_result) [
        | none ↦ some (raise s' no_result)
        | some (r, []) ↦ some (
            stop (fail failed "Failed to decompose task" s')
              (record r { error = "Failed to decompose task" }))
        | some (r, t ∷ ts) ↦
            elim (execute_tasks 0 (t ∷ ts) (record s' { state = executing_tools }) r) [
              | none ↦ none
              | some (threw u q) ↦ some (raise u q)
              | some (done us u q) ↦ some (conclude us u q)
            ]
      ]
