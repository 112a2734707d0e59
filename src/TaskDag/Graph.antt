-- ===== src/TaskDag/Graph.antt =====
-- Graphs that `add_node` builds, and the state that the sort prepares for them.
use forge_lock_free.Base.{
  ℕ, zero, suc, ◌+◌, ◌≤◌, ◌<◌, ◌≡◌, refl, ap, Bool-cases, inl, inr, true, List, [], ◌∷◌, ◌++◌,
  length, ltb, ◌==◌, if◌then◌else◌, update, All, arith,
}
use forge_lock_free.Base.Count.{count, count-append}
use forge_lock_free.Chat.{ToolCall}
use forge_lock_free.TaskDag.{
  DagNode, ok, all_below, add_node, Sort, link, link_all, free_from, prepare,
}
use forge_lock_free.TaskDag.Kahn.{is_zero, Inv}

-- The dependencies of node `i`, when the list begins with node `k`.
abbrev pub deps_from : ℕ → List DagNode → ℕ → List ℕ
deps_from k [] i = []
deps_from k (node ∷ nodes) i = if i == k then node.dependencies else deps_from (k + 1) nodes i

abbrev pub deps_of : List DagNode → ℕ → List ℕ
deps_of nodes = deps_from 0 nodes

-- The graphs that calls of `add_node` build.
pub data Built : List DagNode → Type 0 where
  no_nodes : Built []
  added :
      {nodes more : List DagNode} (call : ToolCall) (deps : List ℕ) (id : ℕ)
      → Built nodes
      → add_node call deps nodes ≡ ok (more, id)
      → Built more

deps_from-before : (k : ℕ) (nodes : List DagNode) (i : ℕ) → i < k → deps_from k nodes i ≡ []
deps_from-before k [] i h = refl
deps_from-before k (node ∷ nodes) i h = ground (arith, deps_from-before (k + 1) nodes i)

deps_from-beyond :
    (k : ℕ) (nodes : List DagNode) (i : ℕ) → k + length nodes ≤ i → deps_from k nodes i ≡ []
deps_from-beyond k [] i h = refl
deps_from-beyond k (node ∷ nodes) i h = ground (arith, deps_from-beyond (k + 1) nodes i)

pub deps_of-beyond : (nodes : List DagNode) (i : ℕ) → length nodes ≤ i → deps_of nodes i ≡ []
deps_of-beyond nodes i h = deps_from-beyond 0 nodes i (omega arith)

deps_from-append :
    (k : ℕ) (nodes : List DagNode) (node : DagNode) (i : ℕ)
    → deps_from k (nodes ++ node ∷ []) i
      ≡ (if i == k + length nodes then node.dependencies else deps_from k nodes i)
deps_from-append k [] node i = ground arith
deps_from-append k (m ∷ nodes) node i = ground (arith, deps_from-append (k + 1) nodes node i)

all_below-All : (id : ℕ) (deps : List ℕ) → all_below id deps ≡ true → All (λ d. d < id) deps
unfolding all_below
all_below-All id [] h = tt
all_below-All id (d ∷ deps) h = (ground (arith, h), all_below-All id deps (ground (arith, h)))

add_node-ok :
    (call : ToolCall) (deps : List ℕ) (nodes more : List DagNode) (id : ℕ)
    → add_node call deps nodes ≡ ok (more, id)
    → (all_below (length nodes) deps ≡ true)
      × (more ≡ nodes ++ record { call = call; dependencies = deps } ∷ [])
unfolding add_node
add_node-ok call deps nodes more id e = elim (Bool-cases (all_below (length nodes) deps)) [
  | inl b ↦ let f = rw (add_node, b) at e in (b, cc)
  | inr b ↦ let f = rw (add_node, b) at e in absurd (cc)
]

-- In a graph that was built, every dependency has a lower number.
pub Built-back : {nodes : List DagNode} → Built nodes → (i : ℕ) → All (λ d. d < i) (deps_of nodes i)
Built-back no_nodes i = tt
Built-back (added {nodes} {more} call deps id b e) i =
    let (h, m) = add_node-ok call deps nodes more id e in
    let c = deps_from-append 0 nodes (record { call = call; dependencies = deps }) i in
    rw (m, c)
      (elim (Bool-cases (i == 0 + length nodes)) [
        | inl g ↦
            let z : i ≡ length nodes = ground (arith, g) in
            rw (g, z) (all_below-All (length nodes) deps h)
        | inr g ↦ rw g (Built-back b i)
      ])

count-link :
    (i : ℕ) (deps : List ℕ) (s : Sort) (j d : ℕ)
    → (count j ((link i deps s).dependents d)
        ≡ count j (s.dependents d) + (if j == i then count d deps else 0))
      × ((link i deps s).in_degree j ≡ s.in_degree j + (if j == i then length deps else 0))
unfolding link
count-link i [] s j d = (ground arith, ground arith)
count-link i (dep ∷ deps) s j d =
    let (a, b) =
      count-link i deps
        (record s {
          dependents = update s.dependents dep (s.dependents dep ++ i ∷ []);
          in_degree = update s.in_degree i (s.in_degree i + 1);
        })
        j d in
    let c = count-append j (s.dependents dep) (i ∷ []) in (ground (arith, a, c), ground (arith, b))

count-link_all :
    (k : ℕ) (nodes : List DagNode) (s : Sort) (j d : ℕ)
    → (count j ((link_all k nodes s).dependents d)
        ≡ count j (s.dependents d) + count d (deps_from k nodes j))
      × ((link_all k nodes s).in_degree j ≡ s.in_degree j + length (deps_from k nodes j))
unfolding link_all
count-link_all k [] s j d = (omega arith, omega arith)
count-link_all k (node ∷ nodes) s j d =
    let (a, b) = count-link_all (k + 1) nodes (link k node.dependencies s) j d in
    let (c, e) = count-link k node.dependencies s j d in
    let f = deps_from-before (k + 1) nodes j in
    elim (Bool-cases (j == k)) [
      | inl g ↦
          let z = f (ground (arith, g)) in
          let u = ap (count d) z in
          let w = ap length z in rw g (ground (arith, a, c, g, u), ground (arith, b, e, g, w))
      | inr g ↦ rw g (ground (arith, a, c, g), ground (arith, b, e, g))
    ]

count-free_from :
    (f : ℕ → ℕ) (k n i : ℕ)
    → count i (free_from f k n)
      ≡ (if ltb i k then 0 else if ltb i (k + n) then is_zero (f i) else 0)
unfolding free_from
count-free_from f k zero i = ground arith
count-free_from f k (suc n) i = elim (Bool-cases (i == k)) [
  | inl g ↦
      let z : i ≡ k = ground (arith, g) in
      let w = ap f z in ground (arith, count-free_from f (k + 1) n i, w)
  | inr g ↦ ground (arith, count-free_from f (k + 1) n i, g)
]

-- What is prepared is the state before any node is done.
pub prepare-Inv :
    (nodes : List DagNode)
    → Inv (length nodes) (deps_of nodes) (deps_of-beyond nodes) (prepare nodes) []
unfolding prepare
prepare-Inv nodes =
    let s : Sort = record { in_degree = λ _. 0; dependents = λ _. []; ready = [] } in
    let t = link_all 0 nodes s in
    record {
      dependent = λ i d. omega (arith, (count-link_all 0 nodes s i d).0);
      degree = λ i. omega (arith, (count-link_all 0 nodes s i 0).1);
      place = λ i. ground (arith, count-free_from t.in_degree 0 (length nodes) i);
    }
