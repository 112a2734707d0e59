-- ===== src/React/Loop.antt =====
-- How a ReAct run ends: it always does, within `max_iterations` calls of the LLM.
use forge_lock_free.Base.{
  ℕ, zero, suc, ◌+◌, ◌^◌, ◌≤◌, ◌<◌, ◌≡◌, refl, true, false, not, Option, none, some, List, [], ◌∷◌,
  arith, ap, subst, length, ◌⊎◌, if_rule, leb, ltb,
}
use forge_lock_free.Chat.{ToolResult, Message, LlmResponse, empty, has_content}
use forge_lock_free.Conversation.{Conversation, push}
use forge_lock_free.Conversation.Evict.{push-length, max-push}
use forge_lock_free.Session.{Session, waiting_for_llm, completed, is_terminal, count_step}
use forge_lock_free.React.{
  World, WorkflowResult, no_result, Flow, stop, proceed, raise, push_results, act, answered, round,
  finish, loop, run,
}

abbrev pub Fits : Conversation → Type 0
Fits c = length c.messages ≤ c.max_messages

pub push-Fits : (c : Conversation) (m : Message) → Fits (push c m)
push-Fits c m = omega (arith, push-length c m, max-push c m)

push_results-Fits : (c : Conversation) (ts : List ToolResult) → Fits c → Fits (push_results c ts)
unfolding push_results
push_results-Fits c [] h = h
push_results-Fits c (t ∷ ts) h =
    push_results-Fits
      (push c (record {
        role = "tool";
        content = t.output;
        tool_calls = [];
        tool_call_id = t.tool_call_id;
      }))
      ts (push-Fits c _)

-- A session as the loop finds it at each round.
pub record Running (s : Session) : Type 0 where
  pub open_answer : empty s.final_answer ≡ true
  pub fits : Fits s.history
  pub small : s.config.max_iterations < 2 ^ 32

-- What one round makes of a running session.
abbrev RoundOk : World → ℕ → Session → Flow → Type 0
RoundOk w n s (proceed s' r') =
    (s.step_count < s.config.max_iterations)
    × (s'.step_count ≡ s.step_count + 1)
    × (s'.config ≡ s.config)
    × (is_terminal s' ≡ false)
    × Running s'
RoundOk w n s (stop s' r') =
    (is_terminal s' ≡ true)
    × (s'.step_count ≤ s.step_count + 1)
    × ((s'.step_count ≡ s.step_count) ⊎ (s.step_count < s.config.max_iterations))
    × (not (empty s'.final_answer) ≡ elim s'.state [ completed ↦ true | _ ↦ false ])
    × Fits s'.history
RoundOk w n s (raise s' r') =
    (s'.state ≡ waiting_for_llm)
    × (s'.step_count ≡ s.step_count + 1)
    × (s.step_count < s.config.max_iterations)
    × (w.complete n s'.history.messages ≡ none)

act-RoundOk :
    (w : World) (n : ℕ) (s t : Session) (r : WorkflowResult) (m : Message)
    → Running s
    → s.step_count < s.config.max_iterations
    → t.step_count ≡ s.step_count + 1
    → empty t.final_answer ≡ true
    → t.history ≡ s.history
    → t.config ≡ s.config
    → RoundOk w n s (act w n t r m)
unfolding act has_content
act-RoundOk w n s t r m h l c a e g =
    ground
      (arith, push-Fits t.history m, push_results-Fits (push t.history m) (w.batch n m.tool_calls))

-- A call of the LLM, below the limit of steps.
answer-RoundOk :
    (w : World) (n : ℕ) (s : Session) (r : WorkflowResult) (o : Option LlmResponse)
    → Running s
    → s.step_count < s.config.max_iterations
    → w.complete n s.history.messages ≡ o
    → RoundOk w n s (answered w n (count_step (record s { state = waiting_for_llm })) r o)
unfolding answered
answer-RoundOk w n s r none h l c = ground (arith, h.small, c)
answer-RoundOk w n s r (some a) h l c =
    if_rule (RoundOk w n s) (not (empty a.error))
      (λ e. ground (arith, h.small, h.fits, h.open_answer))
      λ e.
        act-RoundOk w n s (count_step (record s { state = waiting_for_llm })) _ a.message h l
          (omega (arith, h.small)) h.open_answer refl refl

-- A round that goes on has taken one step below the limit; one that stops ends the session.
round-RoundOk :
    (w : World) (n : ℕ) (s : Session) (r : WorkflowResult)
    → Running s
    → RoundOk w n s (round w n s r)
unfolding round
round-RoundOk w n s r h =
    if_rule (RoundOk w n s) (w.cancel n) (λ e. ground (arith, h.fits, h.open_answer))
      λ _.
        if_rule (RoundOk w n s) (leb s.config.max_iterations s.step_count)
          (λ e. ground (arith, h.fits, h.open_answer))
          λ below.
            if_rule (RoundOk w n s) (ltb s.deadline (w.now n))
              (λ e. ground (arith, h.fits, h.open_answer))
              λ _. answer-RoundOk w n s r (w.complete n s.history.messages) h (ground arith) refl

-- How a run may end, at most `max` steps having been taken.
abbrev pub Ends : World → ℕ → Option Flow → Type 0
Ends w max none = ⊥
Ends w max (some (proceed s r)) = ⊥
Ends w max (some (stop s r)) =
    (is_terminal s ≡ true)
    × (r.success ≡ elim s.state [ completed ↦ true | _ ↦ false ])
    × (r.success ≡ not (empty r.answer))
    × (r.answer ≡ s.final_answer)
    × (r.steps_taken ≤ max)
    × (length s.history.messages ≤ s.history.max_messages)
Ends w max (some (raise s r)) =
    (s.state ≡ waiting_for_llm)
    × (s.step_count ≤ max)
    × (n : ℕ) × (w.complete n s.history.messages ≡ none)

-- What the loop does after a round.
after-Ends :
    (w : World) (fuel n : ℕ) (s : Session) (x : Flow)
    → RoundOk w n s x
    → s.step_count ≤ s.config.max_iterations
    → ((s' : Session) (r' : WorkflowResult)
        → Running s'
        → is_terminal s' ≡ false
        → s'.config ≡ s.config
        → s'.step_count ≡ s.step_count + 1
        → s.step_count < s.config.max_iterations
        → Ends w s.config.max_iterations (loop w fuel (suc n) s' r'))
    → Ends w s.config.max_iterations (elim x [
      | stop s' r' ↦ some (stop s' (finish w s' r'))
      | proceed s' r' ↦ loop w fuel (suc n) s' r'
      | raise s' r' ↦ some (raise s' r')
    ])
unfolding finish
after-Ends w fuel n s (stop s' r') ok l k = ground arith
after-Ends w fuel n s (proceed s' r') (b, c, g, t, h) l k = k s' r' h t g c b
after-Ends w fuel n s (raise s' r') (a, b, c, d) l k = (a, omega (arith, b, c), n, d)

loop-Ends :
    (w : World) (fuel n : ℕ) (s : Session) (r : WorkflowResult)
    → Running s
    → is_terminal s ≡ false
    → s.step_count ≤ s.config.max_iterations
    → s.config.max_iterations < s.step_count + fuel
    → Ends w s.config.max_iterations (loop w fuel n s r)
unfolding loop
loop-Ends w zero n s r h t l f = absurd (omega arith)
loop-Ends w (suc fuel) n s r h t l f = rw t (
    after-Ends w fuel n s (round w n s r) (round-RoundOk w n s r h) l λ s' r' h' t' g c b.
      let m : s'.config.max_iterations ≡ s.config.max_iterations = ap (λ x. x.max_iterations) g in
      subst (λ x. Ends w x (loop w fuel (suc n) s' r')) m
        (loop-Ends w fuel (suc n) s' r' h' t' (omega arith) (omega arith)))

-- A run of a session that is not terminal, has taken no step, has no answer yet and a history within its
-- capacity, and whose limit of iterations is below 2^32, whatever the LLM, the tools, the clients and the
-- clock do: it ends, with at most `max_iterations` steps. Either a call of the LLM for the history that
-- the session is left with threw, and then the exception leaves the session waiting for the LLM; or the
-- session is in a terminal state, the result is a success exactly when that state is COMPLETED, and
-- exactly when there is an answer, that of the session, and the history is within its capacity.
pub run-Ends :
    (w : World) (s : Session)
    → Running s
    → is_terminal s ≡ false
    → s.step_count ≡ 0
    → Ends w s.config.max_iterations (run w s)
unfolding run
run-Ends w s h t z =
    loop-Ends w (suc (suc s.config.max_iterations)) 0 s no_result h t (omega arith) (omega arith)
