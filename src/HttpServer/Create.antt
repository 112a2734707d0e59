-- ===== src/HttpServer/Create.antt =====
-- The creation of a session over HTTP, and what a client reads then.
use Prim.Native.String.{String}
use forge_lock_free.Base.{ℕ, ◌≡◌, ◌⊎◌, Bool, true, false, some, ◌==◌, if◌then◌else◌}
use forge_lock_free.Chat.Json.{Library}
use forge_lock_free.Session.{created, waiting_for_llm}
use forge_lock_free.SessionManager.{SessionInfo, Manager, dispatch, get_session}
use forge_lock_free.SessionManager.Create.{Own, untouched}
use forge_lock_free.HttpServer.{Response, json_content, created_body}

-- A manager whose pool has begun the task of `id`, or has not.
abbrev pub progressed : Bool → ℕ → Manager → Manager
progressed false id m = m
progressed true id m = dispatch id m

-- What a client reads of the new session then.
abbrev pub new_info : Bool → ℕ → SessionInfo
new_info started id = record (untouched id) { state = if started then waiting_for_llm else created }

module _ (l : Library) (hash : ℕ → ℕ) where
  -- A creation and what `get_session` shows before and after it, as the client sees them.
  abbrev Served : Manager → ℕ → Manager × Response → Type 0
  Served m j r =
      ((r.1 ≡ json_content (some 201) (created_body l m.next_id))
        × Own hash r.0
        × (get_session hash j r.0
            ≡ (if m.next_id == j then some (untouched m.next_id) else get_session hash j m)))
      ⊎ (((r.1.status ≡ some 400) ⊎ (r.1.status ≡ some 503))
          × (get_session hash j r.0 ≡ get_session hash j m))
