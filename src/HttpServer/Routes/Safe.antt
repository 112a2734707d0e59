-- ===== src/HttpServer/Routes/Safe.antt =====
-- What requests leave alone.
use Prim.Native.String.{String}
use forge_lock_free.Base.{
  ℕ, ◌≡◌, inl, inr, refl, Bool, true, false, Option, none, some, List, [], ◌∷◌, Option-cases,
  Bool-cases, if◌then◌else◌, ◌&&◌, arith,
}
use forge_lock_free.Chat.Json.{Outcome, done, threw, Library}
use forge_lock_free.WorkflowFactory.{Factory}
use forge_lock_free.ConcurrentMap.{find}
use forge_lock_free.SessionManager.{
  Manager, stripes, get_session as find_session, cancel_session, list_sessions as keys,
}
use forge_lock_free.SessionManager.Create.{Own}
use forge_lock_free.SessionManager.Cancel.{cancel-get}
use forge_lock_free.Metrics.{Metrics}
use forge_lock_free.HttpServer.{Request, handle_delete_session, with_id}
use forge_lock_free.HttpServer.Routes.{
  Method, get, delete, Handler, create_session, list_sessions, get_session, delete_session, health,
  metrics, subscribe, same_method, routes, Matcher, route, handle, serve,
}

abbrev reads_only : Handler → Bool
reads_only create_session = false
reads_only delete_session = false
reads_only _ = true

abbrev deletes : Handler → Bool
deletes delete_session = true
deletes _ = false

-- A test of the handlers of one method.
abbrev all_routes : (Handler → Bool) → Method → List (Method × String × Handler) → Bool
all_routes test method [] = true
all_routes test method ((m, pattern, handler) ∷ rs) =
    let rest = all_routes test method rs in
    if same_method m method then test handler && rest else rest

abbrev passes : (Handler → Bool) → Option (Handler × (ℕ → String)) → Bool
passes test none = true
passes test (some (handler, groups)) = test handler

route-passes :
    (test : Handler → Bool) (matcher : Matcher) (method : Method) (path : String)
    (rs : List (Method × String × Handler))
    → all_routes test method rs ≡ true
    → passes test (route matcher method path rs) ≡ true
unfolding route
route-passes test matcher method path [] h = refl
route-passes test matcher method path ((m, pattern, handler) ∷ rs) h =
    elim (Option-cases (matcher pattern path)) [
      | inl e ↦ ground (arith, e, h, route-passes test matcher method path rs)
      | inr (groups, e) ↦ ground (arith, e, h, route-passes test matcher method path rs)
    ]

-- What clients can read is the same.
abbrev pub Kept : (ℕ → ℕ) → Manager → Manager → ℕ → Type 0
Kept hash m n j = (find_session hash j n ≡ find_session hash j m) × (keys n ≡ keys m)

cancel-keys : (hash : ℕ → ℕ) (id : ℕ) (m : Manager) → keys (cancel_session hash id m).0 ≡ keys m
unfolding cancel_session keys
cancel-keys hash id m = elim (Option-cases (find hash stripes id m.sessions)) [
  | inl e ↦ ground (arith, e)
  | inr (p, e) ↦ ground (arith, e)
]

delete-manager :
    (l : Library) (hash : ℕ → ℕ) (stoull : String → Outcome ℕ) (req : Request) (m : Manager)
    (id : ℕ)
    → stoull (req.matches 1) ≡ done id
    → (handle_delete_session l hash stoull req m).0 ≡ (cancel_session hash id m).0
unfolding handle_delete_session with_id
delete-manager l hash stoull req m id e = elim (Bool-cases (cancel_session hash id m).1) [
  | inl h ↦ rw (handle_delete_session, e) (rw h refl)
  | inr h ↦ rw (handle_delete_session, e) (rw h refl)
]

delete-Kept :
    (l : Library) (hash : ℕ → ℕ) (stoull : String → Outcome ℕ) (req : Request) (m : Manager) (j : ℕ)
    (o : Outcome ℕ)
    → Own hash m
    → stoull (req.matches 1) ≡ o
    → Kept hash m (handle_delete_session l hash stoull req m).0 j
unfolding handle_delete_session with_id
delete-Kept l hash stoull req m j (threw t) own e = rw (handle_delete_session, e) (refl, refl)
delete-Kept l hash stoull req m j (done id) own e =
    rw (delete-manager l hash stoull req m id e)
      ((cancel-get hash id j m own).0, cancel-keys hash id m)

module _ (l : Library) (hash : ℕ → ℕ) (stoull : String → Outcome ℕ) (matcher : Matcher) {W : Type 0}
    (factory : Factory W) (ready : ℕ → Bool) (decimal : ℕ → String) (now : ℕ) where
  handle-reads :
      (x : Metrics) (handler : Handler) (req : Request) (m : Manager)
      → reads_only handler ≡ true
      → (handle l hash stoull matcher factory ready decimal now x handler req m).0 ≡ m
  unfolding handle
  handle-reads x create_session req m h = absurd (ground (arith, h))
  handle-reads x list_sessions req m h = refl
  handle-reads x get_session req m h = refl
  handle-reads x delete_session req m h = absurd (ground (arith, h))
  handle-reads x health req m h = refl
  handle-reads x metrics req m h = refl
  handle-reads x subscribe req m h = refl

  handle-deletes :
      (x : Metrics) (handler : Handler) (req : Request) (m : Manager) (j : ℕ)
      → Own hash m
      → deletes handler ≡ true
      → Kept hash m (handle l hash stoull matcher factory ready decimal now x handler req m).0 j
  unfolding handle
  handle-deletes x create_session req m j own h = absurd (ground (arith, h))
  handle-deletes x list_sessions req m j own h = absurd (ground (arith, h))
  handle-deletes x get_session req m j own h = absurd (ground (arith, h))
  handle-deletes x delete_session req m j own h =
      delete-Kept l hash stoull req m j (stoull (req.matches 1)) own refl
  handle-deletes x health req m j own h = absurd (ground (arith, h))
  handle-deletes x metrics req m j own h = absurd (ground (arith, h))
  handle-deletes x subscribe req m j own h = absurd (ground (arith, h))

  passes-reads :
      (x : Metrics) (path body : String) (m : Manager) (o : Option (Handler × (ℕ → String)))
      → route matcher get path routes ≡ o
      → passes reads_only o ≡ true
      → (serve l hash stoull matcher factory ready decimal now x get path body m).0 ≡ m
  unfolding serve
  passes-reads x path body m none e h = rw (serve, e) refl
  passes-reads x path body m (some (handler, groups)) e h =
      rw (serve, e) (handle-reads x handler (record { body = body; matches = groups }) m h)

  passes-deletes :
      (x : Metrics) (path body : String) (m : Manager) (j : ℕ) (o : Option (Handler × (ℕ → String)))
      → Own hash m
      → route matcher delete path routes ≡ o
      → passes deletes o ≡ true
      → Kept hash m (serve l hash stoull matcher factory ready decimal now x delete path body m).0 j
  unfolding serve
  passes-deletes x path body m j none own e h = rw (serve, e) (refl, refl)
  passes-deletes x path body m j (some (handler, groups)) own e h =
      rw (serve, e) (handle-deletes x handler (record { body = body; matches = groups }) m j own h)

  -- Whatever the path, a GET request leaves the manager as it is, and a DELETE request leaves as they are
  -- the list of sessions and what can be read of each, in a manager that has each session under its own
  -- id.
  pub serve-Kept :
      (x : Metrics) (path body : String) (m : Manager) (j : ℕ)
      → Own hash m
      → ((serve l hash stoull matcher factory ready decimal now x get path body m).0 ≡ m)
        × Kept hash m
            (serve l hash stoull matcher factory ready decimal now x delete path body m).0
            j
  unfolding routes
  serve-Kept x path body m j own = (
    passes-reads x path body m (route matcher get path routes) refl
        (route-passes reads_only matcher get path routes refl),
    passes-deletes x path body m j (route matcher delete path routes) own refl
        (route-passes deletes matcher delete path routes refl),
  )
