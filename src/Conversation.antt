-- ===== src/Conversation.antt =====
-- The bounded history of src/session/conversation.h.
pub mod Evict
pub mod Summary
mod Tests
use forge_lock_free.Base.{
  ℕ, zero, suc, ◌+◌, ◌≡◌, Bool, true, false, List, [], ◌∷◌, ◌++◌, length, leb, ltb, if◌then◌else◌,
  ◌&&◌, Option, none, some,
}
use forge_lock_free.Chat.{Message, is_system}

pub record Conversation : Type 0 where
  pub max_messages : ℕ
  pub messages : List Message

unfoldable pub new : ℕ → Conversation
new max = record { max_messages = max; messages = [] }

-- One round of the loop of `evict_if_needed`: the second message goes if the first is a system
-- message with others behind it, and the first goes if not.
unfoldable pub evict_one : List Message → List Message
evict_one [] = []
evict_one (m ∷ []) = []
evict_one (m ∷ n ∷ ms) = if is_system m then m ∷ ms else n ∷ ms

-- `while (messages_.size() > max_messages_)`, each round with one message fewer.
unfoldable pub evict : ℕ → ℕ → List Message → List Message
evict zero max ms = ms
evict (suc fuel) max ms =
    let rest = evict fuel max (evict_one ms) in if ltb max (length ms) then rest else ms

unfoldable pub evict_if_needed : Conversation → Conversation
unfolding evict evict_one
evict_if_needed c = record c { messages = evict (length c.messages) c.max_messages c.messages }

unfoldable pub push : Conversation → Message → Conversation
unfolding evict_if_needed
push c m = evict_if_needed (record c { messages = c.messages ++ m ∷ [] })

unfoldable pub clear : Conversation → Conversation
clear c = record c { messages = [] }
