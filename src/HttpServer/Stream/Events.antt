-- ===== src/HttpServer/Stream/Events.antt =====
-- What a subscriber gets, against a description of the events by the sessions that are read.
use Prim.Native.String.{String, ◌++◌ as ◌<>◌}
use forge_lock_free.Base.{
  ℕ, zero, suc, ◌≡◌, ◌≢◌, ◌⊎◌, refl, sym, ap, ◌∙◌, Bool, true, false, Option, none, some, List, [],
  ◌∷◌, ◌++◌, Bool-cases, inl, inr, ◌==◌, if◌then◌else◌, arith,
}
use forge_lock_free.Chat.{empty}
use forge_lock_free.Chat.Json.{Library}
use forge_lock_free.Session.{
  SessionState, created, waiting_for_llm, executing_tools, waiting_for_human, completed, failed,
  cancelled, session_state_name, terminal,
}
use forge_lock_free.SessionManager.{SessionInfo}
use forge_lock_free.SessionManager.Gc.{finished}
use forge_lock_free.HttpServer.Stream.{index, Cursor, changed, state_event, poll, stream}

-- The words for the states.
abbrev pub word : SessionState → String
word created = "created"
word waiting_for_llm = "waiting_for_llm"
word executing_tools = "executing_tools"
word waiting_for_human = "waiting_for_human"
word completed = "completed"
word failed = "failed"
word cancelled = "cancelled"

name-word : (s : SessionState) → session_state_name s ≡ word s
unfolding session_state_name
name-word created = refl
name-word waiting_for_llm = refl
name-word executing_tools = refl
name-word waiting_for_human = refl
name-word completed = refl
name-word failed = refl
name-word cancelled = refl

abbrev state_of : ℕ → SessionState
state_of zero = created
state_of (suc zero) = waiting_for_llm
state_of (suc (suc zero)) = executing_tools
state_of (suc (suc (suc zero))) = waiting_for_human
state_of (suc (suc (suc (suc zero)))) = completed
state_of (suc (suc (suc (suc (suc zero))))) = failed
state_of (suc (suc (suc (suc (suc (suc n)))))) = cancelled

state_of-index : (s : SessionState) → state_of (index s) ≡ s
state_of-index created = refl
state_of-index waiting_for_llm = refl
state_of-index executing_tools = refl
state_of-index waiting_for_human = refl
state_of-index completed = refl
state_of-index failed = refl
state_of-index cancelled = refl

index_inj : (s t : SessionState) → index s ≡ index t → s ≡ t
index_inj s t e = sym (state_of-index s) ∙ ap state_of e ∙ state_of-index t

-- A session is what the subscriber was last told of, or differs in its state or its steps.
abbrev pub Same : Cursor → SessionInfo → Type 0
Same c i = (i.state ≡ c.last_state) × (i.step_count ≡ c.last_step)

abbrev pub Differs : Cursor → SessionInfo → Type 0
Differs c i = (i.state ≢ c.last_state) ⊎ (i.step_count ≢ c.last_step)

changed-cases :
    (c : Cursor) (i : SessionInfo)
    → ((changed c i ≡ false) × Same c i) ⊎ ((changed c i ≡ true) × Differs c i)
changed-cases c i = elim (Bool-cases (index i.state == index c.last_state)) [
  | inr e ↦ inr (ground (arith, e), inl (λ q. absurd (ground (arith, e, ap index q))))
  | inl e ↦ elim (Bool-cases (i.step_count == c.last_step)) [
    | inr f ↦ inr (ground (arith, f), inr (λ q. absurd (ground (arith, f, q))))
    | inl f ↦ inl (
      ground (arith, e, f),
      (index_inj i.state c.last_state (ground (arith, e)), ground (arith, f)),
    )
  ]
]

module _ (l : Library) where
  open l use {Json, string, number, object, dump}

  -- The event of a session.
  abbrev pub event : SessionInfo → String
  event i =
      "event: state\ndata: "
      <> dump (
          object (
            ("id", number i.id)
            ∷ ("state", string (word i.state))
            ∷ ("step_count", number i.step_count)
            ∷ ((if empty i.final_answer then [] else ("answer", string i.final_answer) ∷ [])
                ++ (if empty i.error then [] else ("error", string i.error) ∷ []))))
      <> "\n\n"

  state_event-event : (i : SessionInfo) → state_event l i ≡ event i
  unfolding state_event
  state_event-event i = rw (name-word i.state) refl

  -- What a client gets for a row of sessions that the provider reads, and whether the stream is closed.
  abbrev pub Told : Cursor → List (Option SessionInfo) → List String → Bool → Type 0
  Told c [] texts closed = (texts ≡ []) × (closed ≡ false)
  Told c (none ∷ os) texts closed =
      (texts ≡ "event: error\ndata: {\"error\":\"Session not found\"}\n\n" ∷ []) × (closed ≡ true)
  Told c (some i ∷ os) texts closed =
      (Same c i × Told c os texts closed)
      ⊎ (Differs c i
          × (finished i.state ≡ true)
          × (texts ≡ event i ∷ "event: done\ndata: {}\n\n" ∷ [])
          × (closed ≡ true))
      ⊎ (Differs c i
          × (finished i.state ≡ false)
          × (rest : List String) × (texts ≡ event i ∷ rest)
          × Told (record { last_state = i.state; last_step = i.step_count }) os rest closed)

  -- For any row of sessions that the provider reads, a client that keeps listening is told as follows. A
  -- session in the state and with the steps of the last one that it was told of gives nothing. Another gives
  -- an event with its fields; if its state is final, a done event follows, and the stream is closed. A
  -- session that is gone gives an error event, and the stream is closed. It is closed by nothing else, and
  -- nothing follows.
  pub stream-events :
      (os : List (Option SessionInfo)) (c : Cursor) → Told c os (stream l os c).0 (stream l os c).1
  unfolding stream poll
  stream-events [] c = (refl, refl)
  stream-events (none ∷ os) c = (refl, refl)
  stream-events (some i ∷ os) c = elim (changed-cases c i) [
    | inl (e, q) ↦ rw e (inl (q, stream-events os c))
    | inr (e, q) ↦ elim (Bool-cases (terminal i.state)) [
      | inl t ↦
          rw (e, t)
            (inr (
              inl (
                q,
                refl,
                ap (λ x. x ∷ "event: done\ndata: {}\n\n" ∷ []) (state_event-event i),
                refl,
              )))
      | inr t ↦
          let c' : Cursor = record { last_state = i.state; last_step = i.step_count } in
          let a : state_event l i ∷ (stream l os c').0 ≡ event i ∷ (stream l os c').0 =
            ap (λ x. x ∷ (stream l os c').0) (state_event-event i) in
          rw (e, t) (inr (inr (q, refl, (stream l os c').0, a, stream-events os c')))
    ]
  ]
