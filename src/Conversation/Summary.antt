-- ===== src/Conversation/Summary.antt =====
-- `SummarizingConversation` of src/session/summarizing_conversation.h. The call of the LLM is a
-- parameter: `complete` is `llm_.complete(request).get()`, `dump` the JSON text of messages.
use Prim.Native.String.{String, ◌++◌ as ◌<>◌}
use forge_lock_free.Base.{
  ℕ, ◌+◌, ◌-◌, ◌≤◌, ◌<◌, ◌≡◌, refl, not, ◌||◌, List, [], ◌∷◌, ◌++◌, length, length-drop, drop, take,
  leb, ltb, if◌then◌else◌, arith, ap, ◌∙◌, sym, append-nil, append_assoc,
}
use forge_lock_free.Chat.{Message, LlmResponse, message, is_system, empty}
use forge_lock_free.Conversation.{Conversation, new, push}
use forge_lock_free.Conversation.Evict.{push-length, push-room, max-push}

pub record Summarizing : Type 0 where
  pub conversation : Conversation
  pub summarize_threshold : ℕ
  pub keep_recent : ℕ

module _ (complete : List Message → LlmResponse) (dump : List Message → String) where
  -- The two messages of the request, around the messages to summarize.
  unfoldable pub request : List Message → List Message
  request old =
      message "system" (
        "Summarize the following conversation concisely, "
        <> "preserving all key information, decisions, and results. "
        <> "Respond with a single summary paragraph.")
      ∷ message "user" ("Conversation to summarize:\n" <> dump old)
      ∷ []

  -- The system message in front, if there is one; `start` in the source is its length.
  unfoldable pub lead : List Message → List Message
  lead [] = []
  lead (m ∷ ms) = if is_system m then m ∷ [] else []

  unfoldable pub push_all : Conversation → List Message → Conversation
  push_all c [] = c
  push_all c (m ∷ ms) = push_all (push c m) ms

  unfoldable pub summary : LlmResponse → Message
  summary r = message "assistant" ("[Summary of prior conversation]\n" <> r.message.content)

  -- The new conversation: the system message, the summary, and the messages from `end` on.
  unfoldable pub rebuild : Conversation → LlmResponse → ℕ → Conversation
  rebuild c r end =
      push_all (push (push_all (new c.max_messages) (lead c.messages)) (summary r))
        (drop end c.messages)

  -- Where the messages to keep begin.
  unfoldable pub recent : Summarizing → ℕ
  recent s =
      let msgs = s.conversation.messages in
      if ltb s.keep_recent (length msgs) then length msgs - s.keep_recent else length (lead msgs)

  -- What the LLM answers for the messages between the system message and the recent ones.
  unfoldable pub response : Summarizing → LlmResponse
  response s =
      let msgs = s.conversation.messages in
      let start = length (lead msgs) in
      complete (request (take (recent s - start) (drop start msgs)))

  unfoldable pub maybe_summarize : Summarizing → Summarizing
  maybe_summarize s =
      let c = s.conversation in
      let r = response s in
      if ltb (length c.messages) s.summarize_threshold
      then s
      else if leb (recent s) (length (lead c.messages) + 1)
      then s
      else if not (empty r.error) || empty r.message.content
      then s
      else record s { conversation = rebuild c r (recent s) }

  unfoldable pub push_summarizing : Summarizing → Message → Summarizing
  push_summarizing s m = maybe_summarize (record s { conversation = push s.conversation m })

  push_all-max :
      (c : Conversation) (ms : List Message) → (push_all c ms).max_messages ≡ c.max_messages
  unfolding push_all
  push_all-max c [] = refl
  push_all-max c (m ∷ ms) = push_all-max (push c m) ms ∙ max-push c m

  push_all-length :
      (c : Conversation) (ms : List Message)
      → length c.messages ≤ c.max_messages
      → length (push_all c ms).messages ≤ c.max_messages
  unfolding push_all
  push_all-length c [] h = h
  push_all-length c (m ∷ ms) h =
      let ih = push_all-length (push c m) ms (omega (arith, push-length c m, max-push c m)) in
      omega (arith, ih, max-push c m)

  rebuild-length :
      (c : Conversation) (r : LlmResponse) (end : ℕ)
      → length (rebuild c r end).messages ≤ c.max_messages
  unfolding rebuild new
  rebuild-length c r end =
      let front = push_all (new c.max_messages) (lead c.messages) in
      let mid = push front (summary r) in
      omega (
        arith,
        push-length front (summary r),
        push_all-length mid (drop end c.messages),
        max-push front (summary r),
        push_all-max (new c.max_messages) (lead c.messages),
      )

  -- Whatever the LLM answers, a push leaves at most as many messages as the capacity.
  pub push_summarizing-length :
      (s : Summarizing) (m : Message)
      → length (push_summarizing s m).conversation.messages ≤ s.conversation.max_messages
  unfolding push_summarizing maybe_summarize
  push_summarizing-length s m =
      let c = push s.conversation m in
      let s' : Summarizing = record s { conversation = c } in
      ground (
        arith,
        push-length s.conversation m,
        max-push s.conversation m,
        rebuild-length c (response s') (recent s'),
      )

  push_all-room :
      (c : Conversation) (ms : List Message)
      → length c.messages + length ms ≤ c.max_messages
      → (push_all c ms).messages ≡ c.messages ++ ms
  unfolding push_all
  push_all-room c [] h = sym (append-nil c.messages)
  push_all-room c (m ∷ ms) h =
      push_all-room (push c m) ms (omega (arith, max-push c m, push-length c m))
      ∙ ap (λ x. x ++ ms) (push-room c m (omega arith))
      ∙ append_assoc c.messages (m ∷ []) ms

  rebuild-room :
      (c : Conversation) (r : LlmResponse) (end : ℕ)
      → length (lead c.messages) + 1 + (length c.messages - end) ≤ c.max_messages
      → (rebuild c r end).messages ≡ lead c.messages ++ summary r ∷ drop end c.messages
  unfolding rebuild new
  rebuild-room c r end h =
      let start = new c.max_messages in
      let front = push_all start (lead c.messages) in
      let mid = push front (summary r) in
      let f : front.messages ≡ lead c.messages =
        push_all-room start (lead c.messages) (omega arith) in
      let fm = push_all-max start (lead c.messages) in
      let fl = ap length f in
      let g : mid.messages ≡ front.messages ++ summary r ∷ [] =
        push-room front (summary r) (omega (arith, fm, fl)) in
      let gl = push-length front (summary r) in
      push_all-room mid (drop end c.messages)
        (omega (arith, fm, fl, gl, max-push front (summary r), length-drop end c.messages))
      ∙ ap (λ x. x ++ drop end c.messages) (g ∙ ap (λ x. x ++ summary r ∷ []) f)
      ∙ append_assoc (lead c.messages) (summary r ∷ []) (drop end c.messages)

  recent-eq :
      (s : Summarizing)
      → s.keep_recent < length s.conversation.messages
      → recent s ≡ length s.conversation.messages - s.keep_recent
  unfolding recent
  recent-eq s h = ground arith

  -- When the history has reached the threshold, more than one message would be summarized, and the
  -- LLM answers without an error and with a text, the history becomes the system message, if there
  -- was one, the summary, and exactly the newest `keep_recent` messages, provided these fit the
  -- capacity; and it is left as it was when the LLM reports an error or answers with no text.
  pub maybe_summarize_lem :
      (s : Summarizing)
      → s.summarize_threshold ≤ length s.conversation.messages
      → length (lead s.conversation.messages) + 1 + s.keep_recent < length s.conversation.messages
      → length (lead s.conversation.messages) + 1 + s.keep_recent ≤ s.conversation.max_messages
      → (maybe_summarize s).conversation.messages ≡ (
          if not (empty (response s).error) || empty (response s).message.content
          then s.conversation.messages
          else lead s.conversation.messages
            ++ summary (response s)
              ∷ drop (length s.conversation.messages - s.keep_recent) s.conversation.messages)
  unfolding maybe_summarize
  maybe_summarize_lem s t k room =
      let e = recent-eq s (omega arith) in
      ground (
        arith,
        e,
        rebuild-room s.conversation (response s) (length s.conversation.messages - s.keep_recent),
      )
