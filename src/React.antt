-- ===== src/React.antt =====
-- `ReActWorkflow::run` of src/workflow/react.cpp. Its surroundings are a parameter: what the LLM
-- answers, how tool calls end, when a client cancels, and the clock. Logging and spans are left out.

pub mod Loop
pub mod Keeps
mod Tests
use Prim.Native.String.{String, ◌++◌ as ◌<>◌}
use forge_lock_free.Base.{
  ℕ, zero, suc, ◌+◌, ◌%◌, ◌^◌, Bool, true, false, not, Option, none, some, List, [], ◌∷◌,
  if◌then◌else◌,
}
use forge_lock_free.Chat.{
  ToolCall, ToolResult, Message, LlmResponse, empty, has_tool_calls, has_content,
}
use forge_lock_free.Conversation.{Conversation, push}
use forge_lock_free.Session.{
  SessionState, waiting_for_llm, executing_tools, completed, failed, cancelled, Session,
  is_terminal, is_timed_out, exceeded_max_iterations, count_step,
}

-- What the run meets, by the number of the round: whether `cancel_requested` is set when the round
-- looks, the time, what `llm_.complete(...).get()` gives for a history (`none` if it throws), and what
-- the executor gives for a batch. `decimal` is `std::to_string`.
pub record World : Type 0 where
  pub cancel : ℕ → Bool
  pub now : ℕ → ℕ
  pub complete : ℕ → List Message → Option LlmResponse
  pub batch : ℕ → List ToolCall → List ToolResult
  pub decimal : ℕ → String

-- The counts of tokens are `int`s, which stand as their 32 bits.
pub record WorkflowResult : Type 0 where
  pub success : Bool
  pub answer : String
  pub error : String
  pub steps_taken : ℕ
  pub total_prompt_tokens : ℕ
  pub total_completion_tokens : ℕ

-- The result as `run` begins with it.
abbrev pub no_result : WorkflowResult
no_result = record {
  success = false;
  answer = "";
  error = "";
  steps_taken = 0;
  total_prompt_tokens = 0;
  total_completion_tokens = 0;
}

-- How a round ends: by `break`, by `continue`, or by an exception that leaves `run`.
pub data Flow : Type 0 where
  stop proceed raise : Session → WorkflowResult → Flow

-- Ends the session in state `st` with an error text.
abbrev pub fail : SessionState → String → Session → Session
fail st text s = record s { error = text; state = st }

-- The `tool` messages that carry the results of a batch.
unfoldable pub push_results : Conversation → List ToolResult → Conversation
push_results c [] = c
push_results c (t ∷ ts) =
    push_results
      (push c (record {
        role = "tool";
        content = t.output;
        tool_calls = [];
        tool_call_id = t.tool_call_id;
      }))
      ts

module _ (w : World) where
  -- The round after the LLM has answered without an error.
  unfoldable pub act : ℕ → Session → WorkflowResult → Message → Flow
  act n s r msg =
      let pushed : Session = record s { history = push s.history msg } in
      let results = w.batch n msg.tool_calls in
      if has_tool_calls msg
      then proceed
          (record pushed { state = executing_tools; history = push_results pushed.history results })
          r
      else if has_content msg
      then stop (record pushed { final_answer = msg.content; state = completed }) r
      else stop (fail failed "LLM returned empty response (no content, no tool calls)" pushed) r

  -- The round from the LLM's answer on.
  unfoldable pub answered : ℕ → Session → WorkflowResult → Option LlmResponse → Flow
  answered n s r none = raise s r
  answered n s r (some a) =
      if not (empty a.error)
      then stop (fail failed ("LLM error: " <> a.error) s) r
      else act n s
          (record r {
            total_prompt_tokens = (r.total_prompt_tokens + a.prompt_tokens) % 2 ^ 32;
            total_completion_tokens = (r.total_completion_tokens + a.completion_tokens) % 2 ^ 32;
          })
          a.message

  -- One round of the loop, number `n`, past its test.
  unfoldable pub round : ℕ → Session → WorkflowResult → Flow
  round n s r =
      if w.cancel n
      then stop (fail cancelled "Cancelled by user" s) r
      else if exceeded_max_iterations s
      then stop
          (fail failed ("Maximum iterations (" <> w.decimal s.config.max_iterations <> ") exceeded")
            s)
          r
      else if is_timed_out s (w.now n)
      then stop (fail failed "Session timed out" s) r
      else let s' = count_step (record s { state = waiting_for_llm }) in
        answered n s' r (w.complete n s.history.messages)

  -- What `run` returns once its loop is left.
  unfoldable pub finish : Session → WorkflowResult → WorkflowResult
  finish s r = record r {
    success = elim s.state [ completed ↦ true | _ ↦ false ];
    answer = s.final_answer;
    error = s.error;
    steps_taken = s.step_count;
  }

  -- The loop from round `n` on; `none` means that the fuel ran out.
  unfoldable pub loop : ℕ → ℕ → Session → WorkflowResult → Option Flow
  loop zero n s r = none
  loop (suc fuel) n s r = if is_terminal s then some (stop s (finish s r)) else elim (round n s r) [
    | stop s' r' ↦ some (stop s' (finish s' r'))
    | proceed s' r' ↦ loop fuel (suc n) s' r'
    | raise s' r' ↦ some (raise s' r')
  ]

  unfoldable pub run : Session → Option Flow
  run s = loop (suc (suc s.config.max_iterations)) 0 s no_result
