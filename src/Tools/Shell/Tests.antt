-- ===== src/Tools/Shell/Tests.antt =====
-- Commands given to the shell tool, and its theorem at one of them.
use forge_lock_free.Base.{◌≡◌, refl, true, List, [], ◌∷◌, All}
use forge_lock_free.Base.Text.{Text, codes}
use forge_lock_free.Tools.Shell.{
  ok, error, empty_command, not_allowed, metacharacter, missing_command, argv, allowed, check_meta,
  tokenize, is_meta, is_space, join, truncate, shell,
}
use forge_lock_free.Tools.Shell.Guard.{mem, Clean, argv-mem}

abbrev list : List Text
list = codes "ls" ∷ codes "grep" ∷ []

runs :
    argv list (codes "grep  -r x\t.") ≡ ok (codes "grep" ∷ codes "-r" ∷ codes "x" ∷ codes "." ∷ [])
unfolding argv allowed check_meta tokenize is_meta is_space
runs = refl

longer_name : argv list (codes "lsof") ≡ error (not_allowed (codes "ls, grep"))
unfolding argv allowed join
longer_name = refl

piped : argv list (codes "ls | sh") ≡ error (metacharacter b'|')
unfolding argv allowed check_meta is_meta
piped = refl

nothing : argv list [] ≡ error missing_command
unfolding argv
nothing = refl

-- With no list, blanks alone are refused as empty.
blanks : argv [] (codes "  ") ≡ error empty_command
unfolding argv check_meta tokenize is_meta is_space
blanks = refl

short : shell (λ words. ok (codes "out")) list (codes "ls") ≡ ok (codes "out")
unfolding shell argv allowed check_meta tokenize is_meta is_space truncate
short = refl

argv-mem_example :
    (program : Text) × (args : List Text) × (codes "ls" ∷ codes "-l" ∷ [] ≡ program ∷ args)
    × (mem program list ≡ true)
    × All Clean (codes "ls" ∷ codes "-l" ∷ [])
unfolding argv allowed check_meta tokenize is_meta is_space
argv-mem_example =
    argv-mem (codes "ls") (codes "grep" ∷ []) (codes "ls -l") (codes "ls" ∷ codes "-l" ∷ [])
      (refl, (refl, tt)) refl
