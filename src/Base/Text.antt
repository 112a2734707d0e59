-- ===== src/Base/Text.antt =====
-- Texts as lists of codes, where the program walks characters.
use Prim.Native.Char.{code}
use Prim.Native.String.{String}
use Prim.Native.Nat.{ℕ}
use mathlib.Core.Path.{◌≡◌, refl}
use mathlib.Core.Bool.{Bool, true, false, ◌&&◌}
use mathlib.Core.List.{List, [], ◌∷◌, ◌++◌}
use native.Mathlib.Omega.{arith}
use forge_lock_free.Base.Tests.{◌==◌, if◌then◌else◌}
use forge_lock_free.Base.Lists.{length, drop}

abbrev pub Text : Type 0
Text = List ℕ

abbrev pub codes : String → Text
codes String.[] = []
codes (String.◌∷◌ c s) = code c ∷ codes s

infix 50 ◌=?◌
abbrev pub ◌=?◌ : Text → Text → Bool
[] =? [] = true
[] =? (d ∷ t) = false
(c ∷ s) =? [] = false
(c ∷ s) =? (d ∷ t) = c == d && s =? t

pub =?→eq : (s t : Text) → s =? t ≡ true → s ≡ t
=?→eq [] [] h = refl
=?→eq [] (d ∷ t) h = ground arith
=?→eq (c ∷ s) [] h = ground arith
=?→eq (c ∷ s) (d ∷ t) h = ground (arith, =?→eq s t)

pub =?_refl : (s : Text) → s =? s ≡ true
=?_refl [] = refl
=?_refl (c ∷ s) = ground (arith, =?_refl s)

-- `t.compare(0, s.size(), s) == 0`.
abbrev pub starts_with : (s t : Text) → Bool
starts_with [] t = true
starts_with (c ∷ s) [] = false
starts_with (c ∷ s) (d ∷ t) = c == d && starts_with s t

pub starts_with→eq : (s t : Text) → starts_with s t ≡ true → t ≡ s ++ drop (length s) t
starts_with→eq [] t h = refl
starts_with→eq (c ∷ s) [] h = ground arith
starts_with→eq (c ∷ s) (d ∷ t) h = ground (arith, starts_with→eq s t)

pub starts_with-append : (s t : Text) → starts_with s (s ++ t) ≡ true
starts_with-append [] t = refl
starts_with-append (c ∷ s) t = ground (arith, starts_with-append s t)

pub drop-append : (s t : Text) → drop (length s) (s ++ t) ≡ t
drop-append [] t = refl
drop-append (c ∷ s) t = drop-append s t

-- The part of a text before the first character that a test picks, and the part from it on.
abbrev pub before : (ℕ → Bool) → Text → Text
before p [] = []
before p (c ∷ s) = if p c then [] else c ∷ before p s

abbrev pub from : (ℕ → Bool) → Text → Text
from p [] = []
from p (c ∷ s) = if p c then c ∷ s else from p s

pub before-from : (p : ℕ → Bool) (s : Text) → before p s ++ from p s ≡ s
before-from p [] = refl
before-from p (c ∷ s) = ground (arith, before-from p s)

-- Whether a test picks no character.
abbrev pub none_of : (ℕ → Bool) → Text → Bool
none_of p [] = true
none_of p (c ∷ s) = if p c then false else none_of p s

pub none_of-before : (p : ℕ → Bool) (s : Text) → none_of p (before p s) ≡ true
none_of-before p [] = refl
none_of-before p (c ∷ s) = ground (arith, none_of-before p s)

pub none_of-append : (p : ℕ → Bool) (s t : Text) → none_of p (s ++ t) ≡ (none_of p s && none_of p t)
none_of-append p [] t = refl
none_of-append p (c ∷ s) t = ground (arith, none_of-append p s t)

-- A test that the first text does not meet, nor anything before `d` in it.
pub from-append :
    (p : ℕ → Bool) (s : Text) (d : ℕ) (r : Text)
    → none_of p s ≡ true
    → p d ≡ true
    → (from p (s ++ d ∷ r) ≡ d ∷ r) × (before p (s ++ d ∷ r) ≡ s)
from-append p [] d r h k = ground arith
from-append p (c ∷ s) d r h k = ground (arith, from-append p s d r)

pub from_none : (p : ℕ → Bool) (s : Text) → none_of p s ≡ true → (from p s ≡ []) × (before p s ≡ s)
from_none p [] h = (refl, refl)
from_none p (c ∷ s) h = ground (arith, from_none p s)
