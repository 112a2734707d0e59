-- ===== src/Tools/FileRead.antt =====
-- The handler of src/tools/builtin/file_read.h, from its path and its `max_lines` on. Texts are lists
-- of character codes; the file system and `std::to_string` are parameters.
pub mod Sandbox
pub mod Cut
mod Tests
use forge_lock_free.Base.{
  ℕ, zero, suc, ◌+◌, Bool, true, false, not, ◌&&◌, ◌||◌, Option, none, some, List, [], ◌∷◌, ◌++◌,
  length, drop, ltb, leb, ◌==◌, if◌then◌else◌,
}
use forge_lock_free.Base.Text.{Text, codes, ◌=?◌, starts_with, before, from}

-- An `int`: `negsuc n` is -(n + 1).
pub data ℤ : Type 0 where
  pos negsuc : ℕ → ℤ

abbrev pub below : ℕ → ℤ → Bool
below count (pos n) = ltb count n
below count (negsuc n) = false

abbrev pub equals : ℕ → ℤ → Bool
equals count (pos n) = count == n
equals count (negsuc n) = false

pub data Failure : Type 0 where
  missing_path : Failure
  invalid_sandbox cannot_resolve escapes cannot_open : Text → Failure

pub data Result (A : Type 0) : Type 0 where
  ok : A → Result A
  error : Failure → Result A

-- `canonical` (`none` if it sets an error code), the operator `/` of paths, and what a stream that
-- opens a file will read.
pub record FileSystem : Type 0 where
  pub canonical : Text → Option Text
  pub join : Text → Text → Text
  pub contents : Text → Option Text

abbrev pub is_newline : ℕ → Bool
is_newline c = c == b'\n'

-- What the reading has come to: the result, the number of its lines, and `ifs.eof()`.
pub record Lines : Type 0 where
  pub result : Text
  pub count : ℕ
  pub eof : Bool

-- `while (std::getline(ifs, line) && count < max_lines)`, with the result so far. A line that ends with
-- the file sets `eof`, and so does a `getline` that finds nothing. `none` means that the fuel ran out.
unfoldable pub read_lines : ℕ → ℤ → ℕ → Text → Text → Option Lines
read_lines zero max count result input = none
read_lines (suc fuel) max count result [] =
    some (record { result = result; count = count; eof = true })
read_lines (suc fuel) max count result (c ∷ s) =
    let line = before is_newline (c ∷ s) in
    let rest = drop 1 (from is_newline (c ∷ s)) in
    let next = read_lines fuel max (count + 1) (result ++ (line ++ b'\n' ∷ [])) rest in
    if below count max
    then next
    else some (record {
      result = result;
      count = count;
      eof = elim (from is_newline (c ∷ s)) [ [] ↦ true | d ∷ r ↦ false ];
    })

-- With the mark that is put after a cut.
unfoldable pub mark : (to_string : ℤ → Text) → ℤ → Lines → Text
mark to_string max l =
    if equals l.count max && not l.eof
    then l.result ++ (codes "\n... (truncated at " ++ (to_string max ++ codes " lines)\n"))
    else l.result

-- The test that the canonical path is the sandbox, or below it.
unfoldable pub outside : (sandbox path : Text) → Bool
outside sandbox path =
    not (path =? sandbox)
    && (leb (length path) (length sandbox)
        || not (starts_with sandbox path)
        || not (starts_with (b'/' ∷ []) (drop (length sandbox) path)))

module _ (fs : FileSystem) where
  -- The canonical path of the request, for a sandbox that is set and resolves to `sandbox`.
  unfoldable pub resolve : (sandbox path : Text) → Result Text
  unfolding outside
  resolve sandbox path =
      let requested : Text = if starts_with (b'/' ∷ []) path then path else fs.join sandbox path in
      elim (fs.canonical requested) [
        | none ↦ error (cannot_resolve path)
        | some full ↦ if outside sandbox full then error (escapes path) else ok full
      ]

  -- The path that is opened; an empty `sandbox_dir` turns the sandbox off.
  unfoldable pub locate : (sandbox_dir path : Text) → Result Text
  unfolding resolve
  locate sandbox_dir [] = error missing_path
  locate [] (c ∷ s) = elim (fs.canonical (c ∷ s)) [
    | none ↦ error (cannot_resolve (c ∷ s))
    | some full ↦ ok full
  ]
  locate (d ∷ dir) (c ∷ s) = elim (fs.canonical (d ∷ dir)) [
    | none ↦ error (invalid_sandbox (d ∷ dir))
    | some sandbox ↦ resolve sandbox (c ∷ s)
  ]

  unfoldable pub file_read :
      (to_string : ℤ → Text) → (sandbox_dir path : Text) → (max_lines : ℤ) → Result (Option Text)
  unfolding mark
  file_read to_string sandbox_dir path max_lines = elim (locate sandbox_dir path) [
    | error e ↦ error e
    | ok full ↦ elim (fs.contents full) [
      | none ↦ error (cannot_open full)
      | some text ↦ elim (read_lines (length text + 1) max_lines 0 [] text) [
        | none ↦ ok none
        | some l ↦ ok (some (mark to_string max_lines l))
      ]
    ]
  ]
