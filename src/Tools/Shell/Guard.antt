-- ===== src/Tools/Shell/Guard.antt =====
-- What the guard of the shell tool lets through.
use forge_lock_free.Base.{
  ℕ, ◌≡◌, refl, sym, ◌∙◌, ap, Bool, true, false, ◌&&◌, List, [], ◌∷◌, ◌++◌, length, drop,
  if◌then◌else◌, All, arith, Bool-cases, inl, inr, subst, append_assoc, append-nil,
}
use forge_lock_free.Base.Text.{
  Text, ◌=?◌, =?_refl, =?→eq, starts_with, starts_with→eq, none_of, none_of-append,
}
use forge_lock_free.Tools.Shell.{
  ok, allowed, permitted, ends_word, is_meta, check_meta, is_space, emit, tokens_from, tokenize,
  non_empty, argv,
}

-- An entry of an allowlist that names a program: not empty, and without blanks.
abbrev pub is_name : Text → Bool
is_name [] = false
is_name (c ∷ s) = none_of is_space (c ∷ s)

abbrev pub mem : Text → List Text → Bool
mem t [] = false
mem t (s ∷ ss) = if s =? t then true else mem t ss

abbrev pub Clean : Text → Type 0
Clean t = none_of is_meta t ≡ true

none_of-cons :
    (f : ℕ → Bool) (c : ℕ) (s : Text)
    → none_of f (c ∷ s) ≡ true
    → (f c ≡ false) × (none_of f s ≡ true)
none_of-cons f c s h = ground arith

tokens_from-word :
    (w p s : Text) → none_of is_space p ≡ true → tokens_from w (p ++ s) ≡ tokens_from (w ++ p) s
unfolding tokens_from
tokens_from-word w [] s h = rw append-nil refl
tokens_from-word w (c ∷ p) s h =
    let (e, k) = none_of-cons is_space c p h in
    rw (tokens_from, e)
      (tokens_from-word (w ++ c ∷ []) p s k ∙ ap (λ v. tokens_from v s) (append_assoc w (c ∷ []) p))

emit-All : (w : Text) (ts : List Text) → Clean w → All Clean ts → All Clean (emit w ts)
emit-All [] ts h k = k
emit-All (c ∷ w) ts h k = (h, k)

tokens_from-All : (w s : Text) → Clean w → Clean s → All Clean (tokens_from w s)
unfolding tokens_from
tokens_from-All w [] h k = emit-All w [] h tt
tokens_from-All w (c ∷ s) h k =
    let (e, l) = none_of-cons is_meta c s k in
    elim (Bool-cases (is_space c)) [
      | inl b ↦ rw (tokens_from, b) (emit-All w (tokens_from [] s) h (tokens_from-All [] s refl l))
      | inr b ↦
          rw (tokens_from, b)
            (tokens_from-All (w ++ c ∷ []) s
              (none_of-append is_meta w (c ∷ []) ∙ (ground (arith, h, e))) l)
    ]

check_meta-Clean : (s : Text) → check_meta s ≡ ok tt → Clean s
unfolding check_meta
check_meta-Clean [] h = refl
check_meta-Clean (c ∷ s) h = ground (arith, check_meta-Clean s)

-- A command that passes the list begins with one of its entries, which ends there.
allowed-split :
    (ps : List Text) (command : Text)
    → allowed ps command ≡ true
    → (p : Text) × (rest : Text) × (mem p ps ≡ true)
      × (command ≡ p ++ rest)
      × (ends_word rest ≡ true)
unfolding allowed
allowed-split [] command h = cc
allowed-split (p ∷ ps) command h =
    elim (Bool-cases (starts_with p command && ends_word (drop (length p) command))) [
      | inl e ↦ (
        p,
        drop (length p) command,
        ground (arith, =?_refl p),
        starts_with→eq p command (ground arith),
        ground arith,
      )
      | inr e ↦
          let (q, rest, m, t, w) = allowed-split ps command (ground arith) in
          (q, rest, ground arith, t, w)
    ]

-- What follows the entry leaves it a word of its own.
tokenize-name :
    (p rest : Text)
    → is_name p ≡ true
    → ends_word rest ≡ true
    → (args : List Text) × (tokenize (p ++ rest) ≡ p ∷ args)
unfolding tokenize tokens_from ends_word is_space
tokenize-name [] rest h e = cc
tokenize-name (c ∷ p) [] h e = ([], tokens_from-word [] (c ∷ p) [] h)
tokenize-name (c ∷ p) (d ∷ rest) h e =
    (tokens_from [] rest, tokens_from-word [] (c ∷ p) (d ∷ rest) h ∙ (ground (arith, e)))

non_empty-ok : (ts words : List Text) → non_empty ts ≡ ok words → words ≡ ts
unfolding non_empty
non_empty-ok [] words h = cc
non_empty-ok (t ∷ ts) words h = cc

argv-ok :
    (p : Text) (ps : List Text) (command : Text) (words : List Text)
    → argv (p ∷ ps) command ≡ ok words
    → (allowed (p ∷ ps) command ≡ true) × (check_meta command ≡ ok tt) × (words ≡ tokenize command)
unfolding argv permitted
argv-ok p ps [] words h = cc
argv-ok p ps (c ∷ s) words h = ground (arith, h, non_empty-ok (tokenize (c ∷ s)) words)

mem-All :
    (f : Text → Bool) (t : Text) (ts : List Text)
    → All (λ q. f q ≡ true) ts
    → mem t ts ≡ true
    → f t ≡ true
mem-All f t [] h m = cc
mem-All f t (s ∷ ts) h m = elim (Bool-cases (s =? t)) [
  | inl e ↦ subst (λ x. f x ≡ true) (=?→eq s t e) h.0
  | inr e ↦ mem-All f t ts h.1 (rw e at m)
]

-- If every entry of a non-empty allowlist names a program, then the words that the tool starts are
-- headed by an entry of the list, and none of them has a shell metacharacter.
pub argv-mem :
    (p : Text) (ps : List Text) (command : Text) (words : List Text)
    → All (λ q. is_name q ≡ true) (p ∷ ps)
    → argv (p ∷ ps) command ≡ ok words
    → (program : Text) × (args : List Text) × (words ≡ program ∷ args)
      × (mem program (p ∷ ps) ≡ true)
      × All Clean words
unfolding tokenize
argv-mem p ps command words h e =
    let (a, m, r) = argv-ok p ps command words e in
    let (q, rest, b, t, w) = allowed-split (p ∷ ps) command a in
    let (args, k) = tokenize-name q rest (mem-All is_name q (p ∷ ps) h b) w in
    let x : words ≡ q ∷ args = r ∙ ap tokenize t ∙ k in
    let y : All Clean words =
      subst (All Clean) (sym r) (tokens_from-All [] command refl (check_meta-Clean command m)) in
    (q, args, x, b, y)
