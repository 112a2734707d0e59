-- ===== src/HttpServer/Routes.antt =====
-- `setup_routes` of src/server/http_server.cpp, and how a request comes to its handler. Which pattern
-- matches which path is httplib's, a parameter.
pub mod Safe
use Prim.Native.String.{String}
use forge_lock_free.Base.{ℕ, Option, none, some, Bool, true, false, List, [], ◌∷◌, if◌then◌else◌}
use forge_lock_free.Chat.Json.{Outcome, Library}
use forge_lock_free.WorkflowFactory.{Factory}
use forge_lock_free.SessionManager.{Manager}
use forge_lock_free.Metrics.{Metrics, handle_metrics}
use forge_lock_free.HttpServer.{
  Request, Response, json_content, handle_create_session, handle_get_session, handle_delete_session,
  handle_subscribe, handle_list_sessions, handle_health,
}

pub data Method : Type 0 where
  post get delete : Method

pub data Handler : Type 0 where
  create_session list_sessions get_session delete_session health metrics subscribe : Handler

unfoldable pub routes : List (Method × String × Handler)
routes =
    (post, "/api/sessions", create_session)
    ∷ (get, "/api/sessions", list_sessions)
    ∷ (get, "/api/sessions/(\\d+)", get_session)
    ∷ (delete, "/api/sessions/(\\d+)", delete_session)
    ∷ (get, "/health", health)
    ∷ (get, "/api/metrics", metrics)
    ∷ (get, "/api/sessions/(\\d+)/subscribe", subscribe)
    ∷ []

abbrev pub same_method : Method → Method → Bool
same_method post post = true
same_method get get = true
same_method delete delete = true
same_method _ _ = false

-- The groups of a path that a pattern matches as a whole.
abbrev pub Matcher : Type 0
Matcher = (pattern path : String) → Option (ℕ → String)

-- The first route of the method whose pattern matches.
unfoldable pub route :
    Matcher → Method → String → List (Method × String × Handler) → Option (Handler × (ℕ → String))
route matcher method path [] = none
route matcher method path ((m, pattern, handler) ∷ rs) =
    let rest = route matcher method path rs in
    if same_method m method
    then elim (matcher pattern path) [ none ↦ rest | some groups ↦ some (handler, groups) ]
    else rest

-- The server's surroundings: the library, the hash of the sessions' map, `stoull`, the matcher of
-- patterns and the factory of workflows.
module _ (l : Library) (hash : ℕ → ℕ) (stoull : String → Outcome ℕ) (matcher : Matcher) {W : Type 0}
    (factory : Factory W) (ready : ℕ → Bool) (decimal : ℕ → String) (now : ℕ) where
  unfoldable pub handle : Metrics → Handler → Request → Manager → Manager × Response
  handle x create_session req m = handle_create_session l hash factory ready decimal now req m
  handle x list_sessions req m = (m, handle_list_sessions l hash m)
  handle x get_session req m = (m, handle_get_session l hash stoull req m)
  handle x delete_session req m = handle_delete_session l hash stoull req m
  handle x health req m = (m, handle_health l m)
  handle x metrics req m = (m, handle_metrics l x m)
  handle x subscribe req m = (m, handle_subscribe l hash stoull req m)

  -- A path without a route is answered by httplib.
  unfoldable pub serve : Metrics → Method → String → String → Manager → Manager × Response
  unfolding route routes handle
  serve x method path body m = elim (route matcher method path routes) [
    | none ↦ (m, json_content (some 404) "")
    | some (handler, groups) ↦ handle x handler (record { body = body; matches = groups }) m
  ]
