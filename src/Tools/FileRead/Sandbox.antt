-- ===== src/Tools/FileRead/Sandbox.antt =====
-- Which paths the sandbox lets through.
use forge_lock_free.Base.{
  ℕ, ◌≡◌, ◌∙◌, ap, true, false, some, Option-cases, Bool-cases, subst, ◌⊎◌, inl, inr, [], ◌∷◌, ◌++◌,
  length, drop, if◌then◌else◌, arith,
}
use forge_lock_free.Base.Text.{Text, ◌=?◌, =?→eq, starts_with, starts_with→eq}
use forge_lock_free.Tools.FileRead.{FileSystem, ok, outside, locate}

-- A path is the sandbox itself, or a path below it.
abbrev pub Within : Text → Text → Type 0
Within sandbox path = (path ≡ sandbox) ⊎ ((rest : Text) × (path ≡ sandbox ++ b'/' ∷ rest))

slash-head : (s : Text) → starts_with (b'/' ∷ []) s ≡ true → (rest : Text) × (s ≡ b'/' ∷ rest)
slash-head [] h = cc
slash-head (c ∷ s) h = (s, ground arith)

outside-Within : (sandbox path : Text) → outside sandbox path ≡ false → Within sandbox path
unfolding outside
outside-Within sandbox path h = elim (Bool-cases (path =? sandbox)) [
  | inl e ↦ inl (=?→eq path sandbox e)
  | inr n ↦
      let (rest, e) = slash-head (drop (length sandbox) path) (ground (arith, n)) in
      inr (rest, starts_with→eq sandbox path (ground (arith, n)) ∙ ap (λ t. sandbox ++ t) e)
]

-- With a sandbox, the file that is opened is the canonical form of some path, and is the canonical
-- sandbox itself or lies below it, whatever `..` and symbolic links the request has.
pub locate-Within :
    (fs : FileSystem) (c : ℕ) (dir path full : Text)
    → locate fs (c ∷ dir) path ≡ ok full
    → (sandbox : Text) × (requested : Text) × (fs.canonical (c ∷ dir) ≡ some sandbox)
      × (fs.canonical requested ≡ some full)
      × Within sandbox full
unfolding locate
locate-Within fs c dir [] full h = cc
locate-Within fs c dir (d ∷ s) full h = elim (Option-cases (fs.canonical (c ∷ dir))) [
  | inl e ↦ absurd (ground (arith, e))
  | inr (sandbox, e) ↦
      let requested : Text =
        if starts_with (b'/' ∷ []) (d ∷ s) then d ∷ s else fs.join sandbox (d ∷ s) in
      elim (Option-cases (fs.canonical requested)) [
        | inl k ↦ absurd (ground (arith, e, k))
        | inr (p, k) ↦ elim (Bool-cases (outside sandbox p)) [
          | inl o ↦ absurd (ground (arith, e, k, o))
          | inr o ↦
              let q : p ≡ full = ground (arith, e, k, o) in
              (
                sandbox,
                requested,
                e,
                k ∙ ap some q,
                subst (Within sandbox) q (outside-Within sandbox p o),
              )
        ]
      ]
]
