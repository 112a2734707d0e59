-- ===== src/TaskDag.antt =====
-- The graph of dependent tool calls of src/workflow/task_dag.h: how it is built, and Kahn's algorithm,
-- which puts its nodes into levels.
pub mod Graph
pub mod Kahn
pub mod Order
pub mod Execute
pub mod Feed
mod Tests
use forge_lock_free.Base.{
  ℕ, zero, suc, ◌+◌, ◌-◌, ◌≡◌, Bool, true, false, ◌&&◌, List, [], ◌∷◌, ◌++◌, length, leb, ltb, ◌==◌,
  if◌then◌else◌, update,
}
use forge_lock_free.Chat.{ToolCall}

pub record DagNode : Type 0 where
  pub call : ToolCall
  pub dependencies : List ℕ

-- The exceptions.
pub data Failure : Type 0 where
  future_node cycle bad_number : Failure

pub data Result {ℓ} (A : Type ℓ) : Type ℓ where
  ok : A → Result A
  error : Failure → Result A
  out_of_fuel : Result A

-- The loop over the dependencies of a new node.
unfoldable pub all_below : ℕ → List ℕ → Bool
all_below id [] = true
all_below id (d ∷ ds) = if leb id d then false else all_below id ds

-- The graph with the node, and its number.
unfoldable pub add_node : ToolCall → List ℕ → List DagNode → Result (List DagNode × ℕ)
unfolding all_below
add_node call deps nodes =
    if all_below (length nodes) deps
    then ok (nodes ++ record { call = call; dependencies = deps } ∷ [], length nodes)
    else error future_node

-- The arrays and the queue of the sort.
pub record Sort : Type 0 where
  pub in_degree : ℕ → ℕ
  pub dependents : ℕ → List ℕ
  pub ready : List ℕ

unfoldable pub link : ℕ → List ℕ → Sort → Sort
link i [] s = s
link i (dep ∷ deps) s = link i deps (record s {
  dependents = update s.dependents dep (s.dependents dep ++ i ∷ []);
  in_degree = update s.in_degree i (s.in_degree i + 1);
})

unfoldable pub link_all : ℕ → List DagNode → Sort → Sort
unfolding link
link_all i [] s = s
link_all i (node ∷ nodes) s = link_all (i + 1) nodes (link i node.dependencies s)

-- The numbers from `i` on, `n` of them, without dependencies.
unfoldable pub free_from : (ℕ → ℕ) → ℕ → ℕ → List ℕ
free_from in_degree i zero = []
free_from in_degree i (suc n) =
    let rest = free_from in_degree (i + 1) n in if in_degree i == 0 then i ∷ rest else rest

unfoldable pub prepare : List DagNode → Sort
unfolding link_all free_from
prepare nodes =
    let s = link_all 0 nodes (record { in_degree = λ _. 0; dependents = λ _. []; ready = [] }) in
    record s { ready = free_from s.in_degree 0 (length nodes) }

-- The loop over the dependents of a node that is done.
unfoldable pub release : List ℕ → Sort → Sort
release [] s = s
release (d ∷ ds) s =
    let left = s.in_degree d - 1 in
    release ds (record s {
      in_degree = update s.in_degree d left;
      ready = if left == 0 then s.ready ++ d ∷ [] else s.ready;
    })

-- The loop over one level, with the nodes that it takes from the queue.
unfoldable pub run_level : ℕ → Sort → List ℕ × Sort
unfolding release
run_level zero s = ([], s)
run_level (suc m) s = elim s.ready [
  | [] ↦ ([], s)
  | node ∷ rest ↦
      let (level, t) = run_level m (release (s.dependents node) (record s { ready = rest })) in
      (node ∷ level, t)
]

-- `while (!ready.empty())`, with the levels and `processed`; a unit of fuel for each round.
unfoldable pub levels_from : ℕ → Sort → Result (List (List ℕ) × ℕ)
unfolding run_level
levels_from zero s = out_of_fuel
levels_from (suc fuel) s =
    let (level, t) = run_level (length s.ready) s in
    let rest = levels_from fuel t in
    elim s.ready [
      | [] ↦ ok ([], 0)
      | node ∷ more ↦ elim rest [
        | ok (levels, processed) ↦ ok (level ∷ levels, length level + processed)
        | error e ↦ error e
        | out_of_fuel ↦ out_of_fuel
      ]
    ]

unfoldable pub topological_sort : List DagNode → Result (List (List ℕ))
unfolding prepare levels_from
topological_sort nodes = elim (levels_from (length nodes + 1) (prepare nodes)) [
  | ok (levels, processed) ↦ if processed == length nodes then ok levels else error cycle
  | error e ↦ error e
  | out_of_fuel ↦ out_of_fuel
]
