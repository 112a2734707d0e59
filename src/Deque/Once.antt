-- ===== src/Deque/Once.antt =====
-- The entries of the deque that are taken, left and pushed.
use mathlib.Core.List.{perm_middle, Perm}
use mathlib.Core.List.Perm
use forge_lock_free.Base.{ℕ, ◌<◌, subst, none, some, List, [], ◌∷◌, ◌++◌, append_assoc, append-nil}
use forge_lock_free.Base.Trace.{Replays}
use forge_lock_free.Deque.{Event, pushed, popped, stolen, Deque, Reach}
use forge_lock_free.Deque.Contents.{contents, Allows, deque_linearizable}

module _ {A : Type 0} where
  pub ins : List (Event A) → List A
  ins [] = []
  ins (pushed v ∷ es) = v ∷ ins es
  ins (_ ∷ es) = ins es

  pub outs : List (Event A) → List A
  outs [] = []
  outs (pushed v ∷ es) = outs es
  outs (popped none ∷ es) = outs es
  outs (popped (some v) ∷ es) = v ∷ outs es
  outs (stolen v ∷ es) = v ∷ outs es

  Replays-perm :
      (l m : List A) (es : List (Event A))
      → Replays Allows l es m
      → Perm (l ++ ins es) (outs es ++ m)
  unfolding ins outs
  Replays-perm l m [] h = rw (h, append-nil) (Perm.refl m)
  Replays-perm l m (pushed v ∷ es) (k, a, h) =
      subst (λ x. Perm x (outs es ++ m)) (rw (a, append_assoc)) (Replays-perm k m es h)
  Replays-perm l m (popped none ∷ es) (k, a, h) = rw (a.0) (rw (a.1) at (Replays-perm k m es h))
  Replays-perm l m (popped (some v) ∷ es) (k, a, h) =
      rw (a, append_assoc)
        (Perm.trans (perm_middle k (ins es)) (Perm.cons v (Replays-perm k m es h)))
  Replays-perm l m (stolen v ∷ es) (k, a, h) = rw a (Perm.cons v (Replays-perm k m es h))

  -- At every moment the entries pushed so far are, counted with repetition, those that a `pop` or a
  -- `steal` has returned and those still in the deque: none is lost, and none is taken twice.
  pub taken_once :
      {capacity : ℕ} {blank : A} {es : List (Event A)} {d : Deque A}
      → 0 < capacity
      → Reach capacity blank es d
      → Perm (ins es) (outs es ++ contents d)
  taken_once {es} {d} h r = Replays-perm [] (contents d) es (deque_linearizable h r)
