-- ===== src/TaskDag/Feed.antt =====
-- What the nodes of a graph are fed with when it is executed.
use Prim.Native.String.{String, ◌++◌ as ◌<>◌}
use forge_lock_free.Base.{
  ℕ, zero, suc, ◌<◌, ◌≡◌, ◌⊎◌, ◌==◌, Bool, true, Option, none, some, List, [], ◌∷◌, ◌++◌, map,
  if◌then◌else◌, All,
}
use forge_lock_free.Base.Count.{count}
use forge_lock_free.Chat.{ToolCall, ToolResult}
use forge_lock_free.ConcurrentMap.{is_some, lookup}
use forge_lock_free.Tools.Registry.{Registry}
use forge_lock_free.Tools.Executor.{execute as run_tool}
use forge_lock_free.TaskDag.{DagNode}
use forge_lock_free.TaskDag.Graph.{deps_of}
use forge_lock_free.TaskDag.Execute.{Match, Results, Regex, execute}

-- What is known of the outputs once the results `rs` of the nodes `l` are added to what was known.
abbrev pub written : ℕ → List ℕ → List ToolResult → Option String → Option String
written d [] rs o = o
written d (i ∷ is) [] o = o
written d (i ∷ is) (r ∷ rs) o = written d is rs (if i == d then some r.output else o)

-- The results have an output of every node in `p`.
abbrev Known : Results → List ℕ → Type 0
Known r p = (d : ℕ) → 0 < count d p → is_some (lookup d r) ≡ true

module _ (stoull : String → Option ℕ) where
  -- A text put together from the matches and the text behind them: each placeholder is replaced by the
  -- output that is known of its node, and stands as it was if none is.
  abbrev pub Filled : (ℕ → Option String) → List Match → String → String → Type 0
  Filled known [] rest t = t ≡ rest
  Filled known (m ∷ ms) rest t =
      (id : ℕ) × (tail : String) × (stoull m.group ≡ some id)
      × Filled known ms rest tail
      × (((u : String) × (known id ≡ some u) × (t ≡ m.prefix <> u <> tail))
          ⊎ ((known id ≡ none) × (t ≡ m.prefix <> m.text <> tail)))

  -- `stoull` reads the groups of these matches.
  abbrev pub Reads : List Match → Type 0
  Reads ms = All (λ m. (n : ℕ) × (stoull m.group ≡ some n)) ms

  module _ (regex : Regex) where
    -- The call of node `i` with its placeholders replaced.
    abbrev pub CallAt : (ℕ → Option String) → List DagNode → ℕ → ToolCall → Type 0
    CallAt known [] i c = ⊥
    CallAt known (node ∷ nodes) zero c =
        (c.id ≡ node.call.id)
        × (c.name ≡ node.call.name)
        × Filled known (regex node.call.arguments_json).0 (regex node.call.arguments_json).1
            c.arguments_json
    CallAt known (node ∷ nodes) (suc i) c = CallAt known nodes i c

    abbrev pub CallsAt : (ℕ → Option String) → List DagNode → List ℕ → List ToolCall → Type 0
    CallsAt known nodes [] cs = cs ≡ []
    CallsAt known nodes (i ∷ l) cs =
        (c : ToolCall) × (more : List ToolCall) × (cs ≡ c ∷ more)
        × CallAt known nodes i c
        × CallsAt known nodes l more

module _ {Json : Type 0} (registry : Registry Json) (timely : ToolCall → ℕ → Bool)
    (stoull : String → Option ℕ) (regex : Regex) where
  -- How the levels run from the outputs known so far: those of the dependencies of each node are known, its
  -- call is the node's with the placeholders replaced by them, the results are those of the tools on
  -- these calls, in order, and their outputs are known from then on.
  abbrev pub Fed : List DagNode → List (List ℕ) → (ℕ → Option String) → List ToolResult → Type 0
  Fed nodes [] known rs = rs ≡ []
  Fed nodes (l ∷ ls) known rs =
      All (λ i. All (λ d. is_some (known d) ≡ true) (deps_of nodes i)) l
      × (calls : List ToolCall) × (more : List ToolResult) × CallsAt stoull regex known nodes l
          calls
      × (rs ≡ map (run_tool registry timely) calls ++ more)
      × Fed nodes ls (λ d. written d l (map (run_tool registry timely) calls) (known d)) more
