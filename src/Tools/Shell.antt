-- ===== src/Tools/Shell.antt =====
-- The handler of src/tools/builtin/shell.h. Texts are lists of character codes. What the started
-- program does is a parameter; so is the JSON parser, the handler being taken from its command on.
pub mod Guard
mod Tests
use forge_lock_free.Base.{
  ℕ, suc, ◌+◌, ◌<◌, Bool, true, false, not, ◌&&◌, ◌||◌, List, [], ◌∷◌, ◌++◌, length, drop, take,
  ltb, ◌==◌, if◌then◌else◌,
}
use forge_lock_free.Base.Text.{Text, codes, starts_with}

-- The exceptions that the handler throws, and those of `pipe` and `fork`.
pub data Failure : Type 0 where
  missing_command empty_command : Failure
  not_allowed : (permitted : Text) → Failure
  metacharacter : ℕ → Failure
  system : Text → Failure

pub data Result (A : Type 0) : Type 0 where
  ok : A → Result A
  error : Failure → Result A

-- The character after the prefix: none, a space or a tab.
unfoldable pub ends_word : Text → Bool
ends_word [] = true
ends_word (c ∷ s) = c == b' ' || c == b'\t'

-- The loop over the allowlist.
unfoldable pub allowed : List Text → Text → Bool
unfolding ends_word
allowed [] command = false
allowed (prefix ∷ prefixes) command =
    if starts_with prefix command && ends_word (drop (length prefix) command)
    then true
    else allowed prefixes command

unfoldable pub is_meta : ℕ → Bool
is_meta c =
    c == b';'
    || c == b'&'
    || c == b'|'
    || c == b'`'
    || c == b'$'
    || c == b'\n'
    || c == b'\r'
    || c == b'>'
    || c == b'<'
    || c == b'('
    || c == b')'
    || c == b'{'
    || c == b'}'
    || c == b'!'
    || c == b'\\'
    || c == b'\''
    || c == b'"'

-- The first metacharacter ends the loop.
unfoldable pub check_meta : Text → Result (Unit {0})
check_meta [] = ok tt
check_meta (c ∷ s) = if is_meta c then error (metacharacter c) else check_meta s

-- The blanks of `operator>>`: space, and codes 9 to 13.
unfoldable pub is_space : ℕ → Bool
is_space c = c == 32 || (ltb 8 c && ltb c 14)

abbrev pub emit : Text → List Text → List Text
emit [] ts = ts
emit (c ∷ s) ts = (c ∷ s) ∷ ts

-- `while (iss >> token)`, with the token read so far.
unfoldable pub tokens_from : Text → Text → List Text
tokens_from word [] = emit word []
tokens_from word (c ∷ s) = elim (is_space c) [
  | true ↦ emit word (tokens_from [] s)
  | false ↦ tokens_from (word ++ c ∷ []) s
]

unfoldable pub tokenize : Text → List Text
unfolding tokens_from
tokenize s = tokens_from [] s

-- The list of the message, with ", " between.
unfoldable pub join : List Text → Text
join [] = []
join (s ∷ []) = s
join (s ∷ t ∷ ts) = s ++ codes ", " ++ join (t ∷ ts)

unfoldable pub non_empty : List Text → Result (List Text)
non_empty [] = error empty_command
non_empty (t ∷ ts) = ok (t ∷ ts)

-- An empty allowlist permits everything.
unfoldable pub permitted : List Text → Text → Bool
unfolding allowed
permitted [] command = true
permitted (p ∷ ps) command = allowed (p ∷ ps) command

-- The handler up to `execvp`: the words that it starts.
unfoldable pub argv : List Text → Text → Result (List Text)
unfolding non_empty permitted
argv prefixes [] = error missing_command
argv prefixes (c ∷ s) =
    if not (permitted prefixes (c ∷ s))
    then error (not_allowed (join prefixes))
    else elim (check_meta (c ∷ s)) [ error e ↦ error e | ok u ↦ non_empty (tokenize (c ∷ s)) ]

abbrev pub max_output : ℕ
max_output = 50000

-- The cut of a long output.
unfoldable pub truncate : Text → Text
truncate out =
    if ltb max_output (length out)
    then take max_output out ++ codes "\n... (output truncated at 50KB)\n"
    else out

-- The whole handler; `exec` starts a program and reads its output.
unfoldable pub shell : (exec : List Text → Result Text) → List Text → Text → Result Text
unfolding argv truncate
shell exec prefixes command = elim (argv prefixes command) [
  | error e ↦ error e
  | ok words ↦ elim (exec words) [ error e ↦ error e | ok out ↦ ok (truncate out) ]
]
