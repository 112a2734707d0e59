-- ===== src/Tools/FileRead/Cut.antt =====
-- The lines that are returned, and the mark of a cut.
use forge_lock_free.Base.{
  ℕ, zero, suc, ◌+◌, ◌≤◌, ◌<◌, ◌≡◌, refl, ◌∙◌, ap, true, false, Bool-cases, inl, inr, some, List,
  [], ◌∷◌, ◌++◌, append_assoc, append-nil, length, length-append, take, ltb, leb, if◌then◌else◌,
  All, arith,
}
use forge_lock_free.Base.Text.{Text, codes, from-append, from_none, none_of}
use forge_lock_free.Tools.FileRead.{
  ℤ, pos, below, ok, FileSystem, is_newline, read_lines, mark, locate, file_read,
}

-- A file: lines that end with a newline, and what stands after the last newline.
abbrev pub text_of : List Text → Text → Text
text_of [] last = last
text_of (l ∷ ls) last = l ++ b'\n' ∷ text_of ls last

-- All its lines.
abbrev pub all_lines : List Text → Text → List Text
all_lines [] [] = []
all_lines [] (c ∷ s) = (c ∷ s) ∷ []
all_lines (l ∷ ls) last = l ∷ all_lines ls last

abbrev pub out : List Text → Text
out [] = []
out (l ∷ ls) = l ++ b'\n' ∷ out ls

abbrev pub OneLine : Text → Type 0
OneLine t = none_of is_newline t ≡ true

take_nil {ℓ} : {A : Type ℓ} (k : ℕ) → take {A = A} k [] ≡ []
take_nil zero = refl
take_nil (suc k) = refl

read_lines-line :
    (fuel : ℕ) (max : ℤ) (count : ℕ) (acc l r : Text)
    → OneLine l
    → read_lines (suc fuel) max count acc (l ++ b'\n' ∷ r) ≡ (
        if below count max
        then read_lines fuel max (count + 1) (acc ++ (l ++ b'\n' ∷ [])) r
        else some (record { result = acc; count = count; eof = false }))
unfolding read_lines
read_lines-line fuel max count acc [] r h = refl
read_lines-line fuel max count acc (c ∷ l) r h =
    let (f, b) = from-append is_newline (c ∷ l) b'\n' r h refl in rw (read_lines, f, b) refl

read_lines-last :
    (fuel : ℕ) (max : ℤ) (count : ℕ) (acc : Text) (c : ℕ) (l : Text)
    → OneLine (c ∷ l)
    → read_lines (suc (suc fuel)) max count acc (c ∷ l)
      ≡ some (
          if below count max
          then record { result = acc ++ ((c ∷ l) ++ b'\n' ∷ []); count = count + 1; eof = true }
          else record { result = acc; count = count; eof = true })
unfolding read_lines
read_lines-last fuel max count acc c l h =
    let (f, b) = from_none is_newline (c ∷ l) h in
    rw (read_lines, f, b)
      (elim (Bool-cases (below count max)) [ inl e ↦ rw e refl | inr e ↦ rw e refl ])

read_lines-cut :
    (fuel k count : ℕ) (acc : Text) (ls : List Text) (last : Text)
    → All OneLine ls
    → OneLine last
    → length (text_of ls last) < fuel
    → read_lines fuel (pos (count + k)) count acc (text_of ls last)
      ≡ some (record {
        result = acc ++ out (take k (all_lines ls last));
        count = count + length (take k (all_lines ls last));
        eof = leb (length ls) k;
      })
read_lines-cut zero k count acc ls last h g f = absurd (omega arith)
read_lines-cut (suc fuel) k count acc [] [] h g f =
    unfold read_lines in ground (arith, take_nil {A = Text} k, append-nil acc)
read_lines-cut (suc zero) k count acc [] (c ∷ s) h g f = absurd (omega arith)
read_lines-cut (suc (suc fuel)) zero count acc [] (c ∷ s) h g f =
    read_lines-last fuel (pos (count + 0)) count acc c s g ∙ (ground (arith, append-nil acc))
read_lines-cut (suc (suc fuel)) (suc k) count acc [] (c ∷ s) h g f =
    read_lines-last fuel (pos (count + suc k)) count acc c s g
    ∙ (ground (arith, take_nil {A = Text} k))
read_lines-cut (suc fuel) zero count acc (l ∷ ls) last h g f =
    read_lines-line fuel (pos (count + 0)) count acc l (text_of ls last) h.0
    ∙ (ground (arith, append-nil acc))
read_lines-cut (suc fuel) (suc k) count acc (l ∷ ls) last h g f =
    let more : length (text_of ls last) < fuel =
      omega (arith, length-append l (b'\n' ∷ text_of ls last)) in
    let e : count + suc k ≡ count + 1 + k = omega arith in
    read_lines-line fuel (pos (count + suc k)) count acc l (text_of ls last) h.0
    ∙ (rw e (
        ground (
          arith,
          read_lines-cut fuel k (count + 1) (acc ++ (l ++ b'\n' ∷ [])) ls last h.1 g more,
          append_assoc acc (l ++ b'\n' ∷ []) (out (take k (all_lines ls last))),
          append_assoc l (b'\n' ∷ []) (out (take k (all_lines ls last))),
        )))

length-all_lines : (ls : List Text) (last : Text) → length ls ≤ length (all_lines ls last)
length-all_lines [] last = omega arith
length-all_lines (l ∷ ls) last = omega (arith, length-all_lines ls last)

length-take {ℓ} : {A : Type ℓ} (k : ℕ) (xs : List A) → k ≤ length xs → length (take k xs) ≡ k
length-take zero xs h = refl
length-take (suc k) [] h = absurd (omega arith)
length-take (suc k) (x ∷ xs) h = ground (arith, length-take k xs)

abbrev pub cut_mark : (ℤ → Text) → ℕ → Text
cut_mark to_string max = codes "\n... (truncated at " ++ (to_string (pos max) ++ codes " lines)\n")

mark-cut :
    (to_string : ℤ → Text) (max : ℕ) (ls : List Text) (last : Text)
    → mark to_string (pos max) (record {
      result = out (take max (all_lines ls last));
      count = 0 + length (take max (all_lines ls last));
      eof = leb (length ls) max;
    })
      ≡ out (take max (all_lines ls last))
        ++ (if ltb max (length ls) then cut_mark to_string max else [])
unfolding mark
mark-cut to_string max ls last = elim (Bool-cases (ltb max (length ls))) [
  | inl e ↦ ground (arith, e, length-all_lines ls last, length-take max (all_lines ls last))
  | inr e ↦ ground (arith, e, append-nil (out (take max (all_lines ls last))))
]

-- For a file that can be located and opened, and any limit of at least 0: the result is the first
-- `max` lines, each with a newline, and then the mark exactly if more than `max` lines of the file end
-- with a newline. So when `max` lines do, and one more stands at the end of the file without a newline,
-- that line is left out and nothing says so. The fuel is always enough.
pub file_read-lines :
    (fs : FileSystem) (to_string : ℤ → Text) (dir path full : Text) (ls : List Text) (last : Text)
    (max : ℕ)
    → locate fs dir path ≡ ok full
    → fs.contents full ≡ some (text_of ls last)
    → All OneLine ls
    → OneLine last
    → file_read fs to_string dir path (pos max)
      ≡ ok (
          some (
            out (take max (all_lines ls last))
            ++ (if ltb max (length ls) then cut_mark to_string max else [])))
unfolding file_read
file_read-lines fs to_string dir path full ls last max p c h g =
    let z : 0 + max ≡ max = omega arith in
    rw
      (
        file_read,
        p,
        c,
        rw z at (read_lines-cut (length (text_of ls last) + 1) max 0 [] ls last h g (omega arith)),
      )
      (ap (λ t. ok (some t)) (mark-cut to_string max ls last))
