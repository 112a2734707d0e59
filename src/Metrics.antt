-- ===== src/Metrics.antt =====
-- The counters of src/utils/metrics.h, each a uint64_t that only atomic operations touch, and
-- `handle_metrics` of src/server/http_server.cpp, which shows them. Amounts are from 0 on.
use Prim.Native.String.{String}
use forge_lock_free.Base.{ℕ, ◌+◌, ◌%◌, ◌^◌, none, List, [], ◌∷◌, ◌++◌}
use forge_lock_free.Chat.Json.{Library}
use forge_lock_free.SessionManager.{Manager, active_count}
use forge_lock_free.HttpServer.{Response, json_content}

pub record Metrics : Type 0 where
  pub sessions_created : ℕ
  pub sessions_completed : ℕ
  pub sessions_failed : ℕ
  pub prompt_tokens : ℕ
  pub completion_tokens : ℕ
  pub tool_calls : ℕ

-- The initial counters, and those that `reset` stores.
abbrev pub zeroed : Metrics
zeroed = record {
  sessions_created = 0;
  sessions_completed = 0;
  sessions_failed = 0;
  prompt_tokens = 0;
  completion_tokens = 0;
  tool_calls = 0;
}

-- One atomic access; `add_tokens` makes two, and other threads may come between them.
pub data Access : Type 0 where
  inc_sessions_created inc_sessions_completed inc_sessions_failed : Access
  add_prompt_tokens add_completion_tokens inc_tool_calls : ℕ → Access

-- `fetch_add` on a counter.
abbrev pub fetch_add : ℕ → ℕ → ℕ
fetch_add n c = (c + n) % 2 ^ 64

unfoldable pub access : Access → Metrics → Metrics
access inc_sessions_created m = record m { sessions_created = fetch_add 1 m.sessions_created }
access inc_sessions_completed m = record m { sessions_completed = fetch_add 1 m.sessions_completed }
access inc_sessions_failed m = record m { sessions_failed = fetch_add 1 m.sessions_failed }
access (add_prompt_tokens n) m = record m { prompt_tokens = fetch_add n m.prompt_tokens }
access (add_completion_tokens n) m = record m {
  completion_tokens = fetch_add n m.completion_tokens;
}
access (inc_tool_calls n) m = record m { tool_calls = fetch_add n m.tool_calls }

unfoldable pub accesses : List Access → Metrics → Metrics
accesses [] m = m
accesses (a ∷ more) m = accesses more (access a m)

module _ (l : Library) where
  open l use {Json, string, number, object, dump}

  -- The members of `to_json`.
  abbrev pub to_json : Metrics → List (String × Json)
  to_json m =
      ("sessions_created", number m.sessions_created)
      ∷ ("sessions_completed", number m.sessions_completed)
      ∷ ("sessions_failed", number m.sessions_failed)
      ∷ ("total_prompt_tokens", number m.prompt_tokens)
      ∷ ("total_completion_tokens", number m.completion_tokens)
      ∷ ("total_tool_calls", number m.tool_calls)
      ∷ []

  unfoldable pub handle_metrics : Metrics → Manager → Response
  handle_metrics x m =
      json_content none
        (dump (object (to_json x ++ ("active_sessions", number (active_count m)) ∷ [])))
