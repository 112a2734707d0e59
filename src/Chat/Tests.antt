-- ===== src/Chat/Tests.antt =====
-- Messages in a small JSON type, and the theorems at them.
use forge_lock_free.Base.{◌≡◌, refl, []}
use forge_lock_free.Chat.{Message}
use forge_lock_free.Chat.Json.{done, threw, to_json, from_json}
use forge_lock_free.Chat.Instance.{
  null, number, object, no_fields, field, library, library-Laws, calling,
}
use forge_lock_free.Chat.RoundTrip.{from_json-to_json}

abbrev answer : Message
answer = record { role = "tool"; content = "5"; tool_calls = []; tool_call_id = "call_1" }

-- A message with a number for its content is refused.
refused :
    from_json (library null) (object (field "content" (number 3) no_fields))
    ≡ threw "type must be string"
unfolding from_json
refused = refl

from_json-to_json_example : from_json (library null) (to_json (library null) calling) ≡ done calling
from_json-to_json_example = from_json-to_json (library null) (library-Laws null) calling
