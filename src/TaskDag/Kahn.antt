-- ===== src/TaskDag/Kahn.antt =====
-- What the rounds of Kahn's algorithm keep.
use forge_lock_free.Base.{
  ℕ, ◌+◌, ◌-◌, ◌≤◌, ◌<◌, ◌≡◌, refl, sym, ap, ◌∙◌, append-nil, append_assoc, Bool-cases, inl, inr,
  List, [], ◌∷◌, ◌++◌, length, ltb, ◌==◌, if◌then◌else◌, update, arith,
}
use forge_lock_free.Base.Count.{count, count-append, covered, covered-le, covered-Within, Within}
use forge_lock_free.TaskDag.{Sort, release, run_level}

abbrev pub is_zero : ℕ → ℕ
is_zero x = if x == 0 then 1 else 0

release-dependents : (ds : List ℕ) (s : Sort) → (release ds s).dependents ≡ s.dependents
unfolding release
release-dependents [] s = refl
release-dependents (d ∷ ds) s = release-dependents ds _

-- The loop lowers each in-degree by what the list asks, and makes ready what comes to 0.
release-in_degree :
    (ds : List ℕ) (s : Sort)
    → ((i : ℕ) → count i ds ≤ s.in_degree i)
    → (i : ℕ)
    → ((release ds s).in_degree i + count i ds ≡ s.in_degree i)
      × (count i (release ds s).ready + is_zero (s.in_degree i)
          ≡ count i s.ready + is_zero ((release ds s).in_degree i))
unfolding release
release-in_degree [] s h i = (omega arith, refl)
release-in_degree (d ∷ ds) s h i =
    let left = s.in_degree d - 1 in
    let t : Sort = record s {
      in_degree = update s.in_degree d left;
      ready = if left == 0 then s.ready ++ d ∷ [] else s.ready;
    } in
    let (a, b) = release-in_degree ds t (λ j. ground (arith, h j, h d)) i in
    let c = count-append i s.ready (d ∷ []) in
    (ground (arith, a, h i, h d), ground (arith, b, c, h i, h d))

release-ready :
    (ds : List ℕ) (s : Sort) → (more : List ℕ) × ((release ds s).ready ≡ s.ready ++ more)
unfolding release
release-ready [] s = ([], sym (append-nil s.ready))
release-ready (d ∷ ds) s = elim (Bool-cases (s.in_degree d - 1 == 0)) [
  | inl e ↦
      let (more, k) = release-ready ds (record s {
        in_degree = update s.in_degree d (s.in_degree d - 1);
        ready = s.ready ++ d ∷ [];
      }) in
      (d ∷ more, rw (release, e) (k ∙ append_assoc s.ready (d ∷ []) more))
  | inr e ↦
      let (more, k) =
        release-ready ds (record s { in_degree = update s.in_degree d (s.in_degree d - 1) }) in
      (more, rw (release, e) k)
]

-- The nodes of a list, done one after another.
abbrev pub pushed : List ℕ → List ℕ → List ℕ
pushed [] p = p
pushed (x ∷ xs) p = pushed xs (x ∷ p)

module _ (n : ℕ) (deps : ℕ → List ℕ) (outside : (i : ℕ) → n ≤ i → deps i ≡ []) where
  -- The state of the sort when the nodes of `p` are done.
  pub record Inv (s : Sort) (p : List ℕ) : Type 0 where
    pub dependent : (i d : ℕ) → count i (s.dependents d) ≡ count d (deps i)
    pub degree : (i : ℕ) → s.in_degree i + covered p (deps i) ≡ length (deps i)
    pub place :
        (i : ℕ) → count i s.ready + count i p ≡ (if ltb i n then is_zero (s.in_degree i) else 0)

  pub Inv-once : {s : Sort} {p : List ℕ} → Inv s p → (i : ℕ) → count i s.ready + count i p ≤ 1
  Inv-once v i = ground (arith, v.place i)

  -- A node that is ready has all its dependencies done.
  pub ready-Within :
      {s : Sort} {p : List ℕ} (i : ℕ) → Inv s p → 0 < count i s.ready → Within p (deps i)
  ready-Within {s} {p} i v h =
      let z : s.in_degree i ≡ 0 = ground (arith, v.place i) in
      covered-Within p (deps i) (λ j. omega (arith, Inv-once v j)) (omega (arith, v.degree i, z))

  next : Sort → ℕ → List ℕ → Sort
  next s node rest = release (s.dependents node) (record s { ready = rest })

  next-Inv :
      (s : Sort) (p : List ℕ) (node : ℕ) (rest : List ℕ)
      → s.ready ≡ node ∷ rest
      → Inv s p
      → Inv (next s node rest) (node ∷ p)
  unfolding next
  next-Inv s p node rest e v =
      let ds = s.dependents node in
      let s₁ : Sort = record s { ready = rest } in
      let once : (i : ℕ) → count i (node ∷ p) ≤ 1 =
        λ i. let r = ap (count i) e in omega (arith, Inv-once v i, r) in
      let fits : (i : ℕ) → count i ds ≤ s.in_degree i =
        λ i. omega (arith, v.dependent i node, covered-le (node ∷ p) (deps i) once, v.degree i) in
      record {
        dependent = λ i d. ap (λ f. count i (f d)) (release-dependents ds s₁) ∙ v.dependent i d;
        degree = λ i.
            let (a, b) = release-in_degree ds s₁ fits i in
            omega (arith, a, v.dependent i node, v.degree i);
        place = λ i.
            let (a, b) = release-in_degree ds s₁ fits i in
            let r = ap (count i) e in
            elim (Bool-cases (ltb i n)) [
              | inl l ↦
                  let q : count i s.ready + count i p ≡ is_zero (s.in_degree i) =
                    ground (arith, v.place i, l) in
                  rw l (omega (arith, b, r, q))
              | inr l ↦
                  let q : count i s.ready + count i p ≡ 0 = ground (arith, v.place i, l) in
                  let c : count i ds ≡ 0 =
                    v.dependent i node ∙ ap (count node) (outside i (ground (arith, l))) in
                  let f : (next s node rest).in_degree i ≡ s.in_degree i = omega (arith, a, c) in
                  let g = ap is_zero f in rw l (omega (arith, b, r, q, g))
            ];
      }

  -- A level takes the nodes that are ready when it begins, and does them.
  pub run_level-Inv :
      (xs ys : List ℕ) (s : Sort) (p : List ℕ)
      → s.ready ≡ xs ++ ys
      → Inv s p
      → ((run_level (length xs) s).0 ≡ xs) × Inv (run_level (length xs) s).1 (pushed xs p)
  unfolding run_level next
  run_level-Inv [] ys s p e v = (refl, v)
  run_level-Inv (x ∷ xs) ys s p e v =
      let (more, m) = release-ready (s.dependents x) (record s { ready = xs ++ ys }) in
      let (a, b) =
        run_level-Inv xs (ys ++ more) (next s x (xs ++ ys)) (x ∷ p) (m ∙ append_assoc xs ys more)
          (next-Inv s p x (xs ++ ys) e v) in
      rw (run_level, e) (ap (λ l. x ∷ l) a, b)
