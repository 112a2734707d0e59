-- ===== src/PlanExecute/Tests.antt =====
-- A run with one planned step, a run whose synthesis throws, and the theorem at it.
use Prim.Native.String.{String}
use forge_lock_free.Base.{ℕ, ◌≡◌, refl, false, none, some, Option, [], ◌∷◌, arith}
use forge_lock_free.Chat.{LlmResponse, message, has_tool_calls, has_content}
use forge_lock_free.Session.{Session, SessionState, SessionConfig, completed, make}
use forge_lock_free.React.{World, Flow, stop, loop, round, answered, act, finish}
use forge_lock_free.React.{run as react_run}
use forge_lock_free.PlanExecute.{
  Outer, run, generate_plan, synthesize, execute_steps, conclude, plan_steps, read_steps,
  add_tokens, keep, step_result, sub_session,
}
use forge_lock_free.PlanExecute.Ends.{RunOk, run-RunOk}

abbrev says : String → LlmResponse
says text = record {
  message = message "assistant" text;
  prompt_tokens = 5;
  completion_tokens = 2;
  model = "m";
  error = "";
}

-- The ReAct run of each step answers at once.
abbrev quick : World
quick = record {
  cancel = λ n. false;
  now = λ n. 0;
  complete = λ n ms. some (says "42");
  batch = λ n cs. [];
  decimal = λ n. "3";
}

abbrev calm : Outer ℕ
calm = record {
  plan = λ ms. some (says "plan");
  answer = λ ms. some (says "It is 42.");
  cancel = λ k. false;
  now = λ k. 0;
  react = λ k. quick;
  parse = λ text. ((none, "multiply") ∷ [], false);
  int = λ n. n;
  to_string = λ n. "1";
}

abbrev broken : Outer ℕ
broken = record calm { answer = λ ms. none }

abbrev config : SessionConfig
config = record { max_iterations = 3; max_history = 10; timeout = 300 }

abbrev fresh : Session
fresh = make 1 config 0

-- The state that a run leaves, the answer, the number of steps and the prompt tokens.
abbrev outcome : Option Flow → Option (SessionState × String × ℕ × ℕ)
outcome (some (stop s r)) = some (s.state, r.answer, r.steps_taken, r.total_prompt_tokens)
outcome _ = none

answers : outcome (run calm fresh) ≡ some (completed, "It is 42.", 1, 15)
unfolding run generate_plan plan_steps read_steps execute_steps sub_session conclude synthesize keep
    step_result add_tokens react_run loop round answered act finish has_tool_calls has_content make
answers = refl

run-RunOk_example : RunOk (run broken fresh)
unfolding make
run-RunOk_example = run-RunOk broken fresh (omega arith)
