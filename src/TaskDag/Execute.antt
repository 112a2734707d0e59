-- ===== src/TaskDag/Execute.antt =====
-- `execute` and `substitute` of src/workflow/task_dag.h, over the tool executor. std::regex and stoull
-- are parameters.
use Prim.Native.String.{String, ◌++◌ as ◌<>◌}
use forge_lock_free.Base.{ℕ, zero, suc, Option, none, some, Bool, List, [], ◌∷◌, ◌++◌}
use forge_lock_free.Chat.{ToolCall, ToolResult}
use forge_lock_free.ConcurrentMap.{assign, lookup}
use forge_lock_free.Tools.Registry.{Registry}
use forge_lock_free.Tools.Executor.{execute_batch}
use forge_lock_free.TaskDag.{DagNode, bad_number, Result, ok, error, out_of_fuel, topological_sort}

-- A match of the placeholder, with the text since the last one and the digits of its group.
pub record Match : Type 0 where
  pub prefix : String
  pub text : String
  pub group : String

-- `results`, by node.
abbrev pub Results : Type 0
Results = List (ℕ × String)

-- What `std::sregex_iterator` gives of a text: its matches, and the text after the last.
abbrev pub Regex : Type 0
Regex = String → List Match × String

-- `none` is an exception of `stoull`, here and below.
module _ (stoull : String → Option ℕ) where
  -- The loop over the matches.
  unfoldable pub fill : Results → List Match → String → Option String
  fill results [] rest = some rest
  fill results (m ∷ ms) rest =
      let more = fill results ms rest in
      elim (stoull m.group) [
        | none ↦ none
        | some id ↦ elim more [
          | none ↦ none
          | some tail ↦
              some (m.prefix <> elim (lookup id results) [ none ↦ m.text | some t ↦ t ] <> tail)
        ]
      ]

  module _ (regex : Regex) where
    unfoldable pub substitute : String → Results → Option String
    unfolding fill
    substitute input results = fill results (regex input).0 (regex input).1

    -- `nodes_[idx]`, with its arguments substituted. Past the end of the nodes there is none.
    unfoldable pub call_at : List DagNode → Results → ℕ → Option ToolCall
    unfolding substitute
    call_at [] results i = none
    call_at (node ∷ nodes) results zero = elim (substitute node.call.arguments_json results) [
      | none ↦ none
      | some text ↦ some (record node.call { arguments_json = text })
    ]
    call_at (node ∷ nodes) results (suc i) = call_at nodes results i

    -- The calls of one level.
    unfoldable pub calls_of : List DagNode → Results → List ℕ → Option (List ToolCall)
    unfolding call_at
    calls_of nodes results [] = some []
    calls_of nodes results (i ∷ is) =
        let more = calls_of nodes results is in
        elim (call_at nodes results i) [
          | none ↦ none
          | some call ↦ elim more [ none ↦ none | some calls ↦ some (call ∷ calls) ]
        ]

-- The loop that stores the results of one level.
unfoldable pub store : List ℕ → List ToolResult → Results → Results
store [] rs results = results
store (i ∷ is) [] results = results
store (i ∷ is) (r ∷ rs) results = store is rs (assign i r.output results)

module _ {Json : Type 0} (registry : Registry Json) (timely : ToolCall → ℕ → Bool)
    (stoull : String → Option ℕ) (regex : Regex) where
  -- The loop over the levels.
  unfoldable pub run_levels : List DagNode → List (List ℕ) → Results → Option (List ToolResult)
  unfolding calls_of store
  run_levels nodes [] results = some []
  run_levels nodes (level ∷ levels) results = elim (calls_of stoull regex nodes results level) [
    | none ↦ none
    | some calls ↦
        let rs = execute_batch registry timely calls in
        elim (run_levels nodes levels (store level rs results)) [
          | none ↦ none
          | some all ↦ some (rs ++ all)
        ]
  ]

  unfoldable pub execute : List DagNode → Result (List ToolResult)
  unfolding run_levels
  execute nodes = elim (topological_sort nodes) [
    | ok levels ↦ elim (run_levels nodes levels []) [ none ↦ error bad_number | some rs ↦ ok rs ]
    | error e ↦ error e
    | out_of_fuel ↦ out_of_fuel
  ]
