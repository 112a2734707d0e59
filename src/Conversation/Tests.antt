-- ===== src/Conversation/Tests.antt =====
-- Runs of the bounded history, and its theorems at them.
use forge_lock_free.Base.{◌≡◌, refl, List, [], ◌∷◌}
use forge_lock_free.Chat.{Message, LlmResponse, message}
use forge_lock_free.Conversation.{push}
use forge_lock_free.Conversation.Evict.{push-system}
use forge_lock_free.Conversation.Summary.{Summarizing}

abbrev sys : Message
sys = message "system" "Be brief."

abbrev user : Message
user = message "user" "2+2?"

abbrev bot : Message
bot = message "assistant" "4"

-- At capacity one a conversation with a system message drops every other message at once.
pushed_away :
    push (record { max_messages = 1; messages = sys ∷ [] }) user
    ≡ record { max_messages = 1; messages = sys ∷ [] }
unfolding push
pushed_away = refl

push-system_example :
    push (record { max_messages = 2; messages = sys ∷ user ∷ [] }) bot
    ≡ record { max_messages = 2; messages = sys ∷ bot ∷ [] }
push-system_example = push-system 1 sys (user ∷ []) bot refl

abbrev reply : List Message → LlmResponse
reply ms = record {
  message = message "assistant" "Sums.";
  prompt_tokens = 3;
  completion_tokens = 1;
  model = "";
  error = "";
}

abbrev long : Summarizing
long = record {
  conversation = record { max_messages = 6; messages = sys ∷ user ∷ bot ∷ user ∷ bot ∷ [] };
  summarize_threshold = 5;
  keep_recent = 1;
}
