-- ===== src/TaskDag/Tests.antt =====
-- Graphs built, sorted and executed, and the theorems at them.
use forge_lock_free.Base.{
  ℕ, ◌≡◌, refl, true, false, Option, none, some, List, [], ◌∷◌, length, ltb, if◌then◌else◌,
}
use Prim.Native.String.{String}
use text.Mathlib.Text.{◌==◌ as str_eq}
use forge_lock_free.Chat.{ToolCall, ToolResult}
use forge_lock_free.ConcurrentMap.{assign, lookup}
use forge_lock_free.Tools.Registry.{returned, Registry, find}
use forge_lock_free.Tools.Executor.{execute_batch, launch, collect, wait_for, result_of}
use forge_lock_free.TaskDag.{
  DagNode, ok, error, future_node, add_node, all_below, prepare, link, link_all, free_from, release,
  run_level, levels_from, topological_sort,
}
use forge_lock_free.TaskDag.Graph.{Built, no_nodes, added, deps_of}
use forge_lock_free.TaskDag.Execute.{
  Match, Regex, fill, substitute, call_at, calls_of, store, run_levels, execute,
}
use forge_lock_free.TaskDag.Order.{times, Ordered, topological_sort-Ordered}

abbrev call : ToolCall
call = record { id = "c"; name = "calculator"; arguments_json = "{}" }

abbrev node : List ℕ → DagNode
node deps = record { call = call; dependencies = deps }

-- 2 needs 0 and 1, and 3 needs 2, twice.
abbrev diamond : List DagNode
diamond = node [] ∷ node [] ∷ node (0 ∷ 1 ∷ []) ∷ node (2 ∷ 2 ∷ []) ∷ []

levels : topological_sort diamond ≡ ok ((0 ∷ 1 ∷ []) ∷ (2 ∷ []) ∷ (3 ∷ []) ∷ [])
unfolding topological_sort prepare link_all link free_from levels_from run_level release
levels = refl

future : add_node call (4 ∷ []) diamond ≡ error future_node
unfolding add_node all_below
future = refl

diamond-Built : Built diamond
unfolding add_node all_below
diamond-Built =
    added call (2 ∷ 2 ∷ []) 3
      (added call (0 ∷ 1 ∷ []) 2 (added call [] 1 (added call [] 0 no_nodes refl) refl) refl) refl

topological_sort-Ordered_example :
    (ls : List (List ℕ)) × (topological_sort diamond ≡ ok ls)
    × ((i : ℕ) → times i ls ≡ (if ltb i (length diamond) then 1 else 0))
    × Ordered (deps_of diamond) [] ls
topological_sort-Ordered_example = topological_sort-Ordered diamond-Built

-- A tool that returns its arguments, and node 1 that has the result of node 0 in its own.
abbrev echo : Registry (Unit {0})
echo =
    (
      "echo",
      record {
        spec = record {
          name = "echo";
          description = "";
          parameters = tt;
          timeout_ms = 10;
          allow_parallel = true;
          idempotent = true;
        };
        handler = returned;
      },
    )
    ∷ []

abbrev placeholder : Match
placeholder = record { prefix = "got "; text = "{{node_0_result}}"; group = "0" }

abbrev regex : Regex
regex input = if str_eq input "got {{node_0_result}}." then (placeholder ∷ [], ".") else ([], input)

abbrev echo_node : String → List ℕ → DagNode
echo_node text deps = record {
  call = record { id = "c"; name = "echo"; arguments_json = text };
  dependencies = deps;
}

abbrev chain : List DagNode
chain = echo_node "one" [] ∷ echo_node "got {{node_0_result}}." (0 ∷ []) ∷ []

abbrev output : String → ToolResult
output text = record { tool_call_id = "c"; output = text; is_error = false }

-- `stoull` on the texts of these graphs.
abbrev read_zero : String → Option ℕ
read_zero s = if str_eq s "0" then some 0 else none

executed :
    execute echo (λ c t. true) read_zero regex chain ≡ ok (output "one" ∷ output "got one." ∷ [])
unfolding execute run_levels calls_of call_at substitute fill store topological_sort prepare
    link_all link free_from levels_from run_level release execute_batch launch collect find wait_for
    result_of assign lookup
executed = refl
