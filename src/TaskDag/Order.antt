-- ===== src/TaskDag/Order.antt =====
-- The levels of graphs that `add_node` has built.
use forge_lock_free.Base.{
  ℕ, zero, suc, ◌+◌, ◌≤◌, ◌<◌, ◌≡◌, refl, sym, ap, ◌∙◌, append-nil, ◌⊎◌, inl, inr, true, List, [],
  ◌∷◌, length, ltb, ◌==◌, if◌then◌else◌, All, arith,
}
use forge_lock_free.Base.Count.{
  count, Within, Within-covered, below, below-nil, below-cons, below-le, below-all,
}
use forge_lock_free.TaskDag.{DagNode, ok, Sort, prepare, run_level, levels_from, topological_sort}
use forge_lock_free.TaskDag.Graph.{deps_of, Built, deps_of-beyond, Built-back, prepare-Inv}
use forge_lock_free.TaskDag.Kahn.{is_zero, pushed, Inv, Inv-once, ready-Within, run_level-Inv}

-- How often a node stands in the levels.
abbrev pub times : ℕ → List (List ℕ) → ℕ
times i [] = 0
times i (l ∷ ls) = count i l + times i ls

count-pushed : (i : ℕ) (xs p : List ℕ) → count i (pushed xs p) ≡ count i xs + count i p
count-pushed i [] p = omega arith
count-pushed i (x ∷ xs) p = omega (arith, count-pushed i xs (x ∷ p))

below-pushed :
    (n : ℕ) (xs p : List ℕ)
    → ((i : ℕ) → 0 < count i xs → i < n)
    → below n (pushed xs p) ≡ length xs + below n p
below-pushed n [] p h = omega arith
below-pushed n (x ∷ xs) p h = omega (
  arith,
  below-pushed n xs (x ∷ p) (λ i k. h i (ground (arith, k))),
  below-cons n x p (h x (ground arith)),
)

pub All-count : {P : ℕ → Type 0} (xs : List ℕ) → ((i : ℕ) → 0 < count i xs → P i) → All P xs
All-count [] h = tt
All-count (x ∷ xs) h = (h x (ground arith), All-count xs (λ i k. h i (ground (arith, k))))

module _ (deps : ℕ → List ℕ) where
  -- Every node of a level has its dependencies among the nodes before the level.
  abbrev pub Ordered : List ℕ → List (List ℕ) → Type 0
  Ordered p [] = Unit
  Ordered p (l ∷ ls) = All (λ i. Within p (deps i)) l × Ordered (pushed l p) ls

List-cases : (l : List ℕ) → (l ≡ []) ⊎ ((x : ℕ) × (r : List ℕ) × (l ≡ x ∷ r))
List-cases [] = inl refl
List-cases (x ∷ r) = inr (x, r, refl)

levels-round :
    (fuel : ℕ) (s : Sort) (node : ℕ) (more : List ℕ) (ls : List (List ℕ)) (k : ℕ)
    → s.ready ≡ node ∷ more
    → (run_level (length s.ready) s).0 ≡ s.ready
    → levels_from fuel (run_level (length s.ready) s).1 ≡ ok (ls, k)
    → levels_from (suc fuel) s ≡ ok (s.ready ∷ ls, length s.ready + k)
unfolding levels_from
levels-round fuel s node more ls k e a h =
    rw (levels_from, e) (rw h (ap (λ x. ok (x ∷ ls, length x + k)) (a ∙ e)))

module _ (n : ℕ) (deps : ℕ → List ℕ) (outside : (i : ℕ) → n ≤ i → deps i ≡ [])
    (back : (i : ℕ) → All (λ d. d < i) (deps i)) where
  abbrev State : Sort → List ℕ → Type 0
  State = Inv n deps outside

  All-Within :
      (p l : List ℕ) (i : ℕ) → ((j : ℕ) → j < i → count j p ≡ 1) → All (λ d. d < i) l → Within p l
  All-Within p [] i h a = tt
  All-Within p (d ∷ l) i h a = (omega (arith, h d a.0), All-Within p l i h a.1)

  -- When no node is ready, all are done.
  complete :
      (s : Sort) (p : List ℕ) → State s p → s.ready ≡ [] → (k i : ℕ) → k ≤ n → i < k → count i p ≡ 1
  complete s p v e zero i h g = absurd (omega arith)
  complete s p v e (suc k) i h g =
      let before : (j : ℕ) → j < i → count j p ≡ 1 =
        λ j l. complete s p v e k j (omega arith) (omega arith) in
      let w = Within-covered p (deps i) (All-Within p (deps i) i before (back i)) in
      let z : s.in_degree i ≡ 0 = omega (arith, w, v.degree i) in
      let r = ap (count i) e in
      let q : count i s.ready + count i p ≡ 1 = v.place i ∙ ground (arith, z) in omega (arith, r, q)

  levels_from-Ordered :
      (fuel : ℕ) (s : Sort) (p : List ℕ)
      → State s p
      → n < fuel + below n p
      → (ls : List (List ℕ)) × (k : ℕ) × (levels_from fuel s ≡ ok (ls, k))
        × (below n p + k ≡ n)
        × ((i : ℕ) → times i ls + count i p ≡ (if ltb i n then 1 else 0))
        × Ordered deps p ls
  unfolding levels_from
  levels_from-Ordered zero s p v h =
      absurd (omega (arith, below-le n p (λ i. omega (arith, Inv-once n deps outside v i))))
  levels_from-Ordered (suc fuel) s p v h = elim (List-cases s.ready) [
    | inl e ↦
        let all : (i : ℕ) → i < n → count i p ≡ 1 = λ i. complete s p v e n i (omega arith) in
        let full = below-all n p all in
        (
          [],
          0,
          rw (levels_from, e) refl,
          omega (arith, full),
          λ i. once i _ (count i s.ready) (is_zero (s.in_degree i)) (all i) (v.place i),
          tt,
        )
    | inr (node, more, e) ↦
        let (a, t) = run_level-Inv n deps outside s.ready [] s p (sym (append-nil s.ready)) v in
        let inside : (i : ℕ) → 0 < count i s.ready → i < n = λ i l. ground (arith, v.place i, l) in
        let b = below-pushed n s.ready p inside in
        let size : 0 < length s.ready = rw e (omega arith) in
        let (ls, k, f, g, c, o) =
          levels_from-Ordered fuel (run_level (length s.ready) s).1 (pushed s.ready p) t
            (omega (arith, b, size)) in
        (
          s.ready ∷ ls,
          length s.ready + k,
          levels-round fuel s node more ls k e a f,
          omega (arith, b, g),
          λ i. omega (arith, c i, count-pushed i s.ready p),
          (All-count s.ready (λ i l. ready-Within n deps outside i v l), o),
        )
  ]
    where
      once :
          (i q r z : ℕ)
          → (i < n → q ≡ 1)
          → r + q ≡ (if ltb i n then z else 0)
          → 0 + q ≡ (if ltb i n then 1 else 0)
      once i q r z h g = ground (arith, h, g)

-- A graph that `add_node` built has no cycle: the sort gives levels, in which every node of the graph
-- stands once and nothing else, and each node has its dependencies in levels before its own.
pub topological_sort-Ordered :
    {nodes : List DagNode}
    → Built nodes
    → (levels : List (List ℕ)) × (topological_sort nodes ≡ ok levels)
      × ((i : ℕ) → times i levels ≡ (if ltb i (length nodes) then 1 else 0))
      × Ordered (deps_of nodes) [] levels
unfolding topological_sort
topological_sort-Ordered {nodes} b =
    let n = length nodes in
    let (ls, k, e, f, c, o) =
      levels_from-Ordered n (deps_of nodes) (deps_of-beyond nodes) (Built-back b) (n + 1)
        (prepare nodes) [] (prepare-Inv nodes) (omega (arith, below-nil n)) in
    let g : (k == length nodes) ≡ true = ground (arith, f, below-nil n) in
    (ls, rw (topological_sort, e) (rw g refl), λ i. omega (arith, c i), o)
