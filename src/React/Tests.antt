-- ===== src/React/Tests.antt =====
-- A run with one tool call, a run whose LLM throws, and the theorem at them.
use Prim.Native.String.{String}
use forge_lock_free.Base.{
  ℕ, zero, suc, ◌≡◌, refl, true, false, none, some, Option, List, [], ◌∷◌, arith,
}
use forge_lock_free.Chat.{Message, LlmResponse, message, has_tool_calls, has_content}
use forge_lock_free.Session.{Session, SessionState, created, completed, cancelled}
use forge_lock_free.React.{World, Flow, stop, act, answered, round, finish, loop, run, push_results}
use forge_lock_free.React.Loop.{Running, Ends, run-Ends}

abbrev ask : Message
ask = record (message "assistant" "") {
  tool_calls = record { id = "c1"; name = "calculator"; arguments_json = "6*7" } ∷ [];
}

abbrev says : Message → LlmResponse
says m = record { message = m; prompt_tokens = 5; completion_tokens = 2; model = "m"; error = "" }

abbrev talk : ℕ → List Message → Option LlmResponse
talk zero ms = some (says ask)
talk (suc n) ms = some (says (message "assistant" "42"))

abbrev calm : World
calm = record {
  cancel = λ n. false;
  now = λ n. n;
  complete = talk;
  batch = λ n cs. record { tool_call_id = "c1"; output = "42"; is_error = false } ∷ [];
  decimal = λ n. "3";
}

-- The LLM's future throws in the first round.
abbrev broken : World
broken = record calm { complete = λ n ms. none }

-- A client cancels between the first round and the second.
abbrev stopped : World
stopped = record calm { cancel = λ n. elim n [ zero ↦ false | suc k ↦ true ] }

abbrev fresh : Session
fresh = record {
  id = 1;
  state = created;
  history = record { max_messages = 10; messages = message "user" "6*7?" ∷ [] };
  config = record { max_iterations = 3; max_history = 10; timeout = 300 };
  step_count = 0;
  deadline = 300;
  created_at = 0;
  initial_prompt = "6*7?";
  final_answer = "";
  error = "";
  cancel_requested = false;
}

-- The state that a run leaves, the answer, and the number of steps.
abbrev outcome : Option Flow → Option (SessionState × String × ℕ)
outcome (some (stop s r)) = some (s.state, r.answer, r.steps_taken)
outcome _ = none

answers : outcome (run calm fresh) ≡ some (completed, "42", 2)
unfolding run loop round answered act finish push_results has_tool_calls has_content
answers = refl

cancels : outcome (run stopped fresh) ≡ some (cancelled, "", 1)
unfolding run loop round answered act finish push_results has_tool_calls has_content
cancels = refl

fresh-Running : Running fresh
fresh-Running = record { open_answer = refl; fits = omega arith; small = omega arith }

run-Ends_example : Ends broken 3 (run broken fresh)
run-Ends_example = run-Ends broken fresh fresh-Running refl refl
