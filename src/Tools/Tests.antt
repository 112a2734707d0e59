-- ===== src/Tools/Tests.antt =====
-- A batch with a good, an unknown, a failing and a slow call, and the theorems at it.
use Prim.Native.String.{String}
use forge_lock_free.Base.{ℕ, ◌≡◌, refl, Bool, true, false, List, [], ◌∷◌, ltb, if◌then◌else◌}
use text.Mathlib.Text.{◌==◌ as str_eq}
use forge_lock_free.Chat.{ToolCall}
use forge_lock_free.Tools.Registry.{returned, threw, ToolSpec, Registry, find}
use forge_lock_free.Tools.Executor.{execute_batch, launch, collect, wait_for, result_of, unknown}

abbrev spec : String → ToolSpec (Unit {0})
spec n = record {
  name = n;
  description = "";
  parameters = tt;
  timeout_ms = 50;
  allow_parallel = true;
  idempotent = false;
}

abbrev tools : Registry (Unit {0})
tools =
    ("echo", record { spec = spec "echo"; handler = returned })
    ∷ ("fail", record { spec = spec "fail"; handler = threw })
    ∷ []

abbrev quick : ToolCall → ℕ → Bool
quick c ms = if str_eq c.id "slow" then ltb 60 ms else true

abbrev call : String → String → ToolCall
call id name = record { id = id; name = name; arguments_json = "x" }

abbrev calls : List ToolCall
calls = call "a" "echo" ∷ call "b" "nope" ∷ call "c" "fail" ∷ call "slow" "echo" ∷ []

batch :
    execute_batch tools quick calls
    ≡ record { tool_call_id = "a"; output = "x"; is_error = false }
      ∷ record { tool_call_id = "b"; output = "Unknown tool: nope"; is_error = true }
      ∷ record { tool_call_id = "c"; output = "Tool error: x"; is_error = true }
      ∷ record { tool_call_id = "slow"; output = "Tool timed out"; is_error = true }
      ∷ []
unfolding execute_batch launch collect find wait_for result_of unknown
batch = refl
