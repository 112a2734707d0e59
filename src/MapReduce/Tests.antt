-- ===== src/MapReduce/Tests.antt =====
-- A run with two sub-tasks, of which one meets a cancelled session, the theorem at a run whose
-- decomposition throws, and two sub-tasks interleaved.
use Prim.Native.String.{String}
use forge_lock_free.Base.{ℕ, zero, suc, ◌≡◌, refl, true, false, none, some, Option, [], ◌∷◌, arith}
use forge_lock_free.Chat.{LlmResponse, message, has_tool_calls, has_content}
use forge_lock_free.Session.{Session, SessionState, SessionConfig, cancelled, make}
use forge_lock_free.React.{
  World, WorkflowResult, no_result, Flow, stop, loop, round, answered, act, finish,
}
use forge_lock_free.React.{run as react_run}
use forge_lock_free.PlanExecute.{add_tokens, sub_session}
use forge_lock_free.PlanExecute.Ends.{RunOk}
use forge_lock_free.MapReduce.{
  Outer, run, decompose, reduce, execute_tasks, conclude, parsed_tasks, read_tasks, keep,
  task_result,
}
use forge_lock_free.MapReduce.Parallel.{Shared, waiting, Reach, start, later, count, add, write}
use forge_lock_free.MapReduce.Parallel.Account.{Accounted, sub-tasks-Accounted}
use forge_lock_free.MapReduce.Ends.{reduced-RunOk}

abbrev says : String → LlmResponse
says text = record {
  message = message "assistant" text;
  prompt_tokens = 5;
  completion_tokens = 2;
  model = "m";
  error = "";
}

abbrev quick : World
quick = record {
  cancel = λ n. false;
  now = λ n. 0;
  complete = λ n ms. some (says "42");
  batch = λ n cs. [];
  decimal = λ n. "3";
}

abbrev late : Outer ℕ
late = record {
  tasks = λ ms. some (says "tasks");
  answer = λ ms. some (says "It is 42.");
  cancel = λ k. elim k [ zero ↦ false | suc j ↦ true ];
  now = λ k. 0;
  react = λ k. quick;
  cancel_after = true;
  parse = λ text. ((none, "multiply") ∷ (some 7, "add") ∷ [], false);
  int = λ n. n;
  to_string = λ n. "1";
}

abbrev broken : Outer ℕ
broken = record late { tasks = λ ms. none }

abbrev config : SessionConfig
config = record { max_iterations = 3; max_history = 10; timeout = 300 }

abbrev fresh : Session
fresh = make 1 config 0

-- The state that a run leaves, the error, and the prompt tokens.
abbrev outcome : Option Flow → Option (SessionState × String × ℕ)
outcome (some (stop s r)) = some (s.state, r.error, r.total_prompt_tokens)
outcome _ = none

stops : outcome (run late fresh) ≡ some (cancelled, "Cancelled by user", 10)
unfolding run decompose parsed_tasks read_tasks execute_tasks sub_session conclude reduce keep
    task_result add_tokens react_run loop round answered act finish has_tool_calls has_content make
stops = refl

reduced-RunOk_example : RunOk (run broken fresh)
unfolding make
reduced-RunOk_example = reduced-RunOk broken fresh (omega arith)

-- Two sub-tasks: the second ends, while the first has begun.
abbrev idle : Shared ℕ
idle = record {
  place = λ i. waiting;
  task = λ i. record { id = i; description = "add"; result = ""; success = false };
  step_count = 4294967295;
  total_prompt_tokens = 10;
  total_completion_tokens = 2;
}

abbrev found : WorkflowResult
found = record no_result { success = true; answer = "42"; total_prompt_tokens = 5 }

abbrev interleaved : (t : Shared ℕ) × Reach 2 idle t
interleaved = (
  _,
  later
      (later
        (later (later (start (λ i. refl)) (count 0 (omega arith) refl))
          (count 1 (omega arith) refl))
        (add 1 found (omega arith) refl))
      (write 1 found (omega arith) refl),
)

sub-tasks-Accounted_example : Accounted 2 idle interleaved.0
sub-tasks-Accounted_example =
    sub-tasks-Accounted (omega arith) (omega arith) (omega arith) interleaved.1
