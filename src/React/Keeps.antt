-- ===== src/React/Keeps.antt =====
-- What a ReAct run leaves alone in its session.
use forge_lock_free.Base.{
  ℕ, zero, suc, ◌≡◌, ◌∙◌, refl, not, Option, none, some, if_rule, leb, ltb, arith, Bool-cases, inl,
  inr,
}
use forge_lock_free.Chat.{Message, LlmResponse, empty, has_content}
use forge_lock_free.Session.{Session, waiting_for_llm, is_terminal, count_step}
use forge_lock_free.React.{
  World, WorkflowResult, Flow, stop, proceed, raise, act, answered, round, finish, loop, run,
}

abbrev pub session_of : Flow → Session
session_of (stop s r) = s
session_of (proceed s r) = s
session_of (raise s r) = s

abbrev pub Keeps : Session → Session → Type 0
Keeps s t = (t.id ≡ s.id) × (t.created_at ≡ s.created_at)

act-Keeps :
    (w : World) (n : ℕ) (s : Session) (r : WorkflowResult) (m : Message)
    → Keeps s (session_of (act w n s r m))
unfolding act has_content
act-Keeps w n s r m = ground arith

answered-Keeps :
    (w : World) (n : ℕ) (s : Session) (r : WorkflowResult) (o : Option LlmResponse)
    → Keeps s (session_of (answered w n s r o))
unfolding answered
answered-Keeps w n s r none = (refl, refl)
answered-Keeps w n s r (some a) =
    if_rule (λ x. Keeps s (session_of x)) (not (empty a.error)) (λ e. (refl, refl))
      (λ e. act-Keeps w n s _ a.message)

round-Keeps :
    (w : World) (n : ℕ) (s : Session) (r : WorkflowResult) → Keeps s (session_of (round w n s r))
unfolding round
round-Keeps w n s r =
    if_rule (λ x. Keeps s (session_of x)) (w.cancel n) (λ e. (refl, refl))
      λ _.
        if_rule (λ x. Keeps s (session_of x)) (leb s.config.max_iterations s.step_count)
          (λ e. (refl, refl))
          λ _.
            if_rule (λ x. Keeps s (session_of x)) (ltb s.deadline (w.now n)) (λ e. (refl, refl))
              λ _.
                answered-Keeps w n (count_step (record s { state = waiting_for_llm })) r
                  (w.complete n s.history.messages)

abbrev pub Kept : Session → Option Flow → Type 0
Kept s none = Unit
Kept s (some x) = Keeps s (session_of x)

after-Kept :
    (w : World) (fuel n : ℕ) (s : Session) (x : Flow)
    → Keeps s (session_of x)
    → ((s' : Session) (r' : WorkflowResult) → Kept s' (loop w fuel (suc n) s' r'))
    → Kept s (elim x [
      | stop s' r' ↦ some (stop s' (finish w s' r'))
      | proceed s' r' ↦ loop w fuel (suc n) s' r'
      | raise s' r' ↦ some (raise s' r')
    ])
after-Kept w fuel n s (stop s' r') h k = h
after-Kept w fuel n s (proceed s' r') h k = onward (loop w fuel (suc n) s' r') (k s' r')
  where
    onward : (o : Option Flow) → Kept s' o → Kept s o
    onward none g = tt
    onward (some y) g = (g.0 ∙ h.0, g.1 ∙ h.1)
after-Kept w fuel n s (raise s' r') h k = h

loop-Kept : (w : World) (fuel n : ℕ) (s : Session) (r : WorkflowResult) → Kept s (loop w fuel n s r)
unfolding loop
loop-Kept w zero n s r = tt
loop-Kept w (suc fuel) n s r = elim (Bool-cases (is_terminal s)) [
  | inl t ↦ rw t (refl, refl)
  | inr t ↦
      rw t (after-Kept w fuel n s (round w n s r) (round-Keeps w n s r) (loop-Kept w fuel (suc n)))
]

-- A run keeps the id of its session and the time of its creation.
pub run-Kept : (w : World) (s : Session) → Kept s (run w s)
unfolding run
run-Kept w s = loop-Kept w _ 0 s _
