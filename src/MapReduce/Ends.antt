-- ===== src/MapReduce/Ends.antt =====
-- How a run of map-reduce ends.
use forge_lock_free.Base.{
  ℕ, suc, ◌<◌, ◌^◌, ◌≡◌, refl, inr, false, Option, none, some, List, [], ◌∷◌, if◌then◌else◌,
  if_rule,
}
use forge_lock_free.Chat.{empty}
use forge_lock_free.Session.{
  waiting_for_llm, executing_tools, failed, Session, is_terminal, count_step,
}
use forge_lock_free.React.{World, WorkflowResult, no_result, Flow, stop, proceed, raise, fail}
use forge_lock_free.React.{World, run as react_run}
use forge_lock_free.React.Loop.{Ends}
use forge_lock_free.PlanExecute.{add_tokens, sub_session}
use forge_lock_free.PlanExecute.Ends.{
  FlowOk, RunOk, Blank, ReplyOk, reply-ReplyOk, end-FlowOk, sub_session-run,
}
use forge_lock_free.MapReduce.{
  SubTask, Outer, Tasks, done, threw, keep, task_result, parsed_tasks, decompose, reduce,
  execute_tasks, conclude, run,
}

module _ {Int : Type 0} where
  abbrev TasksOk : Option (Tasks Int) → Type 0
  TasksOk none = ⊥
  TasksOk (some (done ts s r)) = Blank r
  TasksOk (some (threw s r)) = is_terminal s ≡ false

  keep-TasksOk : (t : SubTask Int) (o : Option (Tasks Int)) → TasksOk o → TasksOk (keep t o)
  unfolding keep
  keep-TasksOk t none h = h
  keep-TasksOk t (some (done ts s r)) h = h
  keep-TasksOk t (some (threw s r)) h = h

module _ {Int : Type 0} (w : Outer Int) where
  -- A sub-task whose ReAct run ends in `o`, `rest` being those after it.
  task-TasksOk :
      (world : World) (max : ℕ) (o : Option Flow) (t : SubTask Int) (s : Session)
      (r : WorkflowResult) (rest : WorkflowResult → Option (Tasks Int))
      → Ends world max o
      → is_terminal s ≡ false
      → ((q : WorkflowResult) → TasksOk (rest q))
      → TasksOk (elim o [
        | none ↦ none
        | some (proceed u q) ↦ none
        | some (raise u q) ↦ some (threw (count_step s) r)
        | some (stop u q) ↦ keep (task_result q t) (rest q)
      ])
  task-TasksOk world max none t s r rest e n h = absurd e
  task-TasksOk world max (some (proceed u q)) t s r rest e n h = absurd e
  task-TasksOk world max (some (raise u q)) t s r rest e n h = n
  task-TasksOk world max (some (stop u q)) t s r rest e n h =
      keep-TasksOk (task_result q t) (rest q) (h q)

  execute_tasks-TasksOk :
      (k : ℕ) (ts : List (SubTask Int)) (s : Session) (r : WorkflowResult)
      → s.config.max_iterations < 2 ^ 32
      → is_terminal s ≡ false
      → Blank r
      → TasksOk (execute_tasks w k ts s r)
  unfolding execute_tasks add_tokens
  execute_tasks-TasksOk k [] s r h n b = b
  execute_tasks-TasksOk k (t ∷ ts) s r h n b =
      if_rule TasksOk (w.cancel k)
        (λ _.
          keep-TasksOk t (execute_tasks w (suc k) ts s r)
            (execute_tasks-TasksOk (suc k) ts s r h n b))
        λ _.
          task-TasksOk (w.react k) s.config.max_iterations
            (react_run (w.react k) (sub_session s.config (w.now k) t.description)) t s r
            (λ q.
              execute_tasks w (suc k) ts (count_step s)
                (add_tokens q.total_prompt_tokens q.total_completion_tokens r))
            (sub_session-run (w.react k) s.config (w.now k) t.description h) n
            (λ q.
              execute_tasks-TasksOk (suc k) ts (count_step s)
                (add_tokens q.total_prompt_tokens q.total_completion_tokens r) h n b)

  conclude-FlowOk :
      (ts : List (SubTask Int)) (s : Session) (r : WorkflowResult)
      → Blank r
      → FlowOk (conclude w ts s r)
  unfolding conclude reduce
  conclude-FlowOk ts s r b =
      let s' : Session = record s { state = waiting_for_llm } in
      if_rule FlowOk w.cancel_after (λ _. (refl, b.0, b.1, inr refl))
        λ _.
          end-FlowOk "Reduce phase failed" s' r (reduce w s' ts r) refl
            (reply-ReplyOk r b _ (λ a. if empty a.error then a.message.content else ""))

  after-RunOk :
      (o : Option (Tasks Int))
      → TasksOk o
      → RunOk (elim o [
        | none ↦ none
        | some (threw u q) ↦ some (raise u q)
        | some (done us u q) ↦ some (conclude w us u q)
      ])
  after-RunOk none h = absurd h
  after-RunOk (some (threw u q)) h = h
  after-RunOk (some (done us u q)) h = conclude-FlowOk us u q h

  tasks-RunOk :
      (s : Session) (o : Option (WorkflowResult × List (SubTask Int)))
      → s.config.max_iterations < 2 ^ 32
      → is_terminal s ≡ false
      → ReplyOk o
      → RunOk (elim o [
        | none ↦ some (raise s no_result)
        | some (r, []) ↦ some (
            stop
              (fail failed "Failed to decompose task" s)
              (record r { error = "Failed to decompose task" }))
        | some (r, t ∷ ts) ↦
            elim (execute_tasks w 0 (t ∷ ts) (record s { state = executing_tools }) r) [
              | none ↦ none
              | some (threw u q) ↦ some (raise u q)
              | some (done us u q) ↦ some (conclude w us u q)
            ]
      ])
  tasks-RunOk s none h n b = n
  tasks-RunOk s (some (r, [])) h n b = (refl, b.0, b.1, inr refl)
  tasks-RunOk s (some (r, t ∷ ts)) h n b =
      after-RunOk (execute_tasks w 0 (t ∷ ts) (record s { state = executing_tools }) r)
        (execute_tasks-TasksOk 0 (t ∷ ts) (record s { state = executing_tools }) r h refl b)

  -- A run of any session, whatever the LLM, the tools, the parser, the clients and the clock do: it ends.
  -- Either an exception leaves it, and the session is in no terminal state; or the session is in a
  -- terminal state, the result is a success exactly when that state is COMPLETED and exactly when there
  -- is an answer, and the result agrees with the session on the answer or on the error.
  pub reduced-RunOk : (s : Session) → s.config.max_iterations < 2 ^ 32 → RunOk (run w s)
  unfolding run decompose
  reduced-RunOk s h =
      tasks-RunOk (record s { state = waiting_for_llm })
        (decompose w (record s { state = waiting_for_llm }) no_result) h refl
        (reply-ReplyOk no_result (refl, refl) _
          (λ a. if empty a.error then parsed_tasks w a.message.content else []))
