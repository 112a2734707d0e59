-- ===== src/Tools/FileRead/Tests.antt =====
-- Reads of a small file system, and the theorems at it.
use forge_lock_free.Base.{◌≡◌, refl, true, false, some, [], ◌∷◌, ◌++◌, take, ltb, if◌then◌else◌}
use forge_lock_free.Base.Text.{Text, codes, ◌=?◌}
use forge_lock_free.Tools.FileRead.{
  ℤ, pos, negsuc, FileSystem, ok, error, escapes, resolve, locate, read_lines, mark, file_read,
}
use forge_lock_free.Tools.FileRead.Sandbox.{Within, locate-Within}
use forge_lock_free.Tools.FileRead.Cut.{all_lines, out, cut_mark, file_read-lines}

-- "/box" holds "a"; "up" is a link to "/etc"; "/boxer" is a neighbour.
abbrev disk : FileSystem
disk = record {
  canonical = λ p. elim (p =? codes "/box/up") [
    | true ↦ some (codes "/etc")
    | false ↦ elim (p =? codes "/box/../boxer") [ true ↦ some (codes "/boxer") | false ↦ some p ]
  ];
  join = λ d p. d ++ b'/' ∷ p;
  contents = λ p. some (codes "one\ntwo\nthree");
}

abbrev number : ℤ → Text
number z = codes "2"

inside : locate disk (codes "/box") (codes "a") ≡ ok (codes "/box/a")
unfolding locate resolve
inside = refl

link : locate disk (codes "/box") (codes "up") ≡ error (escapes (codes "up"))
unfolding locate resolve
link = refl

neighbour : locate disk (codes "/box") (codes "../boxer") ≡ error (escapes (codes "../boxer"))
unfolding locate resolve
neighbour = refl

-- With the root as the sandbox nothing below it can be read.
root : locate disk (codes "/") (codes "/etc/hosts") ≡ error (escapes (codes "/etc/hosts"))
unfolding locate resolve
root = refl

-- Of three lines, the last without a newline, two are asked for: no mark.
silent : file_read disk number (codes "/box") (codes "a") (pos 2) ≡ ok (some (codes "one\ntwo\n"))
unfolding file_read locate resolve read_lines mark
silent = refl

negative : file_read disk number (codes "/box") (codes "a") (negsuc 0) ≡ ok (some [])
unfolding file_read locate resolve read_lines mark
negative = refl

locate-Within_example :
    (sandbox : Text) × (requested : Text) × (disk.canonical (codes "/box") ≡ some sandbox)
    × (disk.canonical requested ≡ some (codes "/box/a"))
    × Within sandbox (codes "/box/a")
unfolding locate resolve
locate-Within_example = locate-Within disk b'/' (codes "box") (codes "a") (codes "/box/a") refl

file_read-lines_example :
    file_read disk number (codes "/box") (codes "a") (pos 1)
    ≡ ok (
        some (
          out (take 1 (all_lines (codes "one" ∷ codes "two" ∷ []) (codes "three")))
          ++ (if ltb 1 2 then cut_mark number 1 else [])))
unfolding locate resolve
file_read-lines_example =
    file_read-lines disk number (codes "/box") (codes "a") (codes "/box/a")
      (codes "one" ∷ codes "two" ∷ []) (codes "three") 1 refl refl (refl, (refl, tt)) refl
