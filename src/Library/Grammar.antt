-- ===== src/Library/Grammar.antt =====
-- What read_ldsoconf reads from a file of comments, includes and directories.
use sloader.Base.{
  ℕ, zero, suc, ◌+◌, ◌<◌, ◌≤◌, ◌≡◌, ◌∙◌, ap, refl, true, false, ◌||◌, Bool-cases, inl, inr, some,
  List, [], ◌∷◌, ◌++◌, ◌==◌, Str, str_eq, length, length-append, contains, codes, All, arith,
}
use sloader.Result.{Result, ok, ◌>>=◌, >>=-ext}
use sloader.System.{System}
use sloader.Library.{
  is_space, skip_spaces, word_of, next_word, skip_line, by_head, ldsoconf_words, include_all,
  read_ldsoconf_dfs,
}

-- A line of a configuration file.
pub data Line : Type 0 where
  comment : Str → Line
  include : Str → Line
  directory : Str → Line

-- The text of the lines.
unfoldable pub render : List Line → Str
render [] = []
render (comment text ∷ rest) = b'#' ∷ (text ++ 10 ∷ render rest)
render (include pattern ∷ rest) = codes "include" ++ (32 ∷ (pattern ++ 10 ∷ render rest))
render (directory name ∷ rest) = name ++ 10 ∷ render rest

-- A word: not empty, with no spaces in it.
pub record Word (w : Str) : Type 0 where
  pub first : ℕ
  pub others : Str
  pub split : w ≡ first ∷ others
  pub no_space : All (λ c. is_space c ≡ false) w

-- A comment is one line; an include has one pattern; the name of a directory is neither "include" nor
-- looks like a comment.
pub data WellFormed : Line → Type 0 where
  is_comment : (text : Str) → All (λ c. (c == 10) ≡ false) text → WellFormed (comment text)
  is_include : (pattern : Str) → Word pattern → WellFormed (include pattern)
  is_directory :
      (name : Str) (w : Word name)
      → (w.first == b'#') ≡ false
      → str_eq name (codes "include") ≡ false
      → WellFormed (directory name)

module _ (sys : System) (read_all : List Str → List Str → Result (List Str)) where
  -- What the lines ask for, one after the other.
  unfoldable pub read_lines : List Str → List Line → Result (List Str)
  read_lines res [] = ok res
  read_lines res (comment text ∷ rest) = read_lines res rest
  read_lines res (include pattern ∷ rest) =
      read_all res (sys.glob pattern) >>= λ more. read_lines more rest
  read_lines res (directory name ∷ rest) = read_lines (res ++ (name ∷ [])) rest

-- A word ends where a space follows.
word_of-plain :
    (w : Str) (c : ℕ) (s : Str)
    → All (λ x. is_space x ≡ false) w
    → is_space c ≡ true
    → word_of (w ++ c ∷ s) ≡ (w, c ∷ s)
unfolding word_of
word_of-plain [] c s h e = rw e refl
word_of-plain (x ∷ w) c s (k, h) e = rw (k, word_of-plain w c s h e) refl

skip_spaces-Word : (w : Str) (s : Str) → Word w → skip_spaces (w ++ s) ≡ w ++ s
unfolding skip_spaces
skip_spaces-Word [] s v = cc v.split
skip_spaces-Word (x ∷ w) s v = rw v.no_space.0 refl

next_word-plain :
    (w : Str) (c : ℕ) (s : Str) → Word w → is_space c ≡ true → next_word (w ++ c ∷ s) ≡ (w, c ∷ s)
unfolding next_word
next_word-plain w c s v e =
    ap word_of (skip_spaces-Word w (c ∷ s) v) ∙ word_of-plain w c s v.no_space e

-- Spaces before a word are passed over.
next_word-space : (c : ℕ) (s : Str) → is_space c ≡ true → next_word (c ∷ s) ≡ next_word s
unfolding next_word skip_spaces
next_word-space c s e = rw e refl

skip_line-here : (text s : Str) → All (λ c. (c == 10) ≡ false) text → skip_line (text ++ 10 ∷ s) ≡ s
unfolding skip_line
skip_line-here [] s h = refl
skip_line-here (c ∷ text) s (e, h) = rw e (skip_line-here text s h)

-- The rest of a comment's line goes with its first word.
skip_line-word :
    (text s : Str) → All (λ c. (c == 10) ≡ false) text → skip_line (word_of (text ++ 10 ∷ s)).1 ≡ s
unfolding word_of is_space
skip_line-word [] s h = skip_line-here [] s tt
skip_line-word (c ∷ text) s (e, h) = elim (Bool-cases (is_space c)) [
  | inl k ↦ rw k (skip_line-here (c ∷ text) s (e, h))
  | inr k ↦ rw k (skip_line-word text s h)
]

next_word-empty : next_word [] ≡ ([], [])
unfolding next_word skip_spaces word_of
next_word-empty = refl

next_word-comment : (s : Str) → next_word (b'#' ∷ s) ≡ (b'#' ∷ (word_of s).0, (word_of s).1)
unfolding next_word skip_spaces word_of is_space
next_word-comment s = refl

-- 32 and 10 are spaces.
blank : is_space 32 ≡ true
unfolding is_space
blank = refl

newline : is_space 10 ≡ true
unfolding is_space
newline = refl

include-Word : Word (codes "include")
unfolding is_space
include-Word = record {
  first = b'i';
  others = codes "nclude";
  split = refl;
  no_space = (refl, (refl, (refl, (refl, (refl, (refl, (refl, tt)))))));
}

by_head-directory {ℓ} :
    {A : Type ℓ} (name : Str) (w : Word name) (a b c d : A)
    → (w.first == b'#') ≡ false
    → str_eq name (codes "include") ≡ false
    → by_head name a b c d ≡ d
unfolding by_head
by_head-directory [] w a b c d h k = cc w.split
by_head-directory (x ∷ name) w a b c d h k = let e : x ≡ w.first = cc w.split in rw (k, e, h) refl

module _ (sys : System) (read_all : List Str → List Str → Result (List Str)) where
  -- One round of the loop.
  round :
      (fuel : ℕ) (res : List Str) (text head rest : Str)
      → next_word text ≡ (head, rest)
      → ldsoconf_words sys read_all (suc fuel) res text
        ≡ by_head head
            (ok res)
            (ldsoconf_words sys read_all fuel res (skip_line rest))
            (read_all res (sys.glob (next_word rest).0) >>= λ more.
              ldsoconf_words sys read_all fuel more (next_word rest).1)
            (ldsoconf_words sys read_all fuel (res ++ (head ∷ [])) rest)
  unfolding ldsoconf_words
  round fuel res text head rest e =
      ap
        (λ (p : Str × Str).
          by_head p.0 (ok res) (ldsoconf_words sys read_all fuel res (skip_line p.1))
            (read_all res (sys.glob (next_word p.1).0) >>= λ more.
              ldsoconf_words sys read_all fuel more (next_word p.1).1)
            (ldsoconf_words sys read_all fuel (res ++ (p.0 ∷ [])) p.1))
        e

  words-read :
      (lines : List Line) (fuel : ℕ) (res : List Str) (text : Str)
      → All WellFormed lines
      → length lines < fuel
      → next_word text ≡ next_word (render lines)
      → ldsoconf_words sys read_all fuel res text ≡ read_lines sys read_all res lines
  unfolding render read_lines by_head
  words-read lines zero res text well enough e = absurd (omega (arith, enough))
  words-read [] (suc fuel) res text well enough e = round fuel res text [] [] (e ∙ next_word-empty)
  words-read (comment line ∷ lines) (suc fuel) res text (is_comment l h, well) enough e =
      let after = line ++ 10 ∷ render lines in
      round fuel res text (b'#' ∷ (word_of after).0) (word_of after).1 (e ∙ next_word-comment after)
      ∙ words-read lines fuel res (skip_line (word_of after).1) well (omega (arith, enough))
          (ap next_word (skip_line-word line (render lines) h))
  words-read (include pattern ∷ lines) (suc fuel) res text (is_include p w, well) enough e =
      let here =
        next_word-plain (codes "include") 32 (pattern ++ 10 ∷ render lines) include-Word blank in
      let there =
        next_word-space 32 (pattern ++ 10 ∷ render lines) blank
        ∙ next_word-plain pattern 10 (render lines) w newline in
      round fuel res text (codes "include") (32 ∷ (pattern ++ 10 ∷ render lines)) (e ∙ here)
      ∙ (ap
            (λ (p : Str × Str).
              read_all res (sys.glob p.0) >>= λ more. ldsoconf_words sys read_all fuel more p.1)
            there
          ∙ >>=-ext (read_all res (sys.glob pattern)) _ _ (λ more.
            words-read lines fuel more (10 ∷ render lines) well (omega (arith, enough))
              (next_word-space 10 (render lines) newline)))
  words-read (directory name ∷ lines) (suc fuel) res text (is_directory n w first not_include, well)
        enough e =
      let here = next_word-plain name 10 (render lines) w newline in
      round fuel res text name (10 ∷ render lines) (e ∙ here)
      ∙ (by_head-directory name w _ _ _ _ first not_include
          ∙ words-read lines fuel (res ++ (name ∷ [])) (10 ∷ render lines) well
              (omega (arith, enough)) (next_word-space 10 (render lines) newline))

-- A text is at least as long as it has lines.
length-render : (lines : List Line) → length lines ≤ length (render lines)
unfolding render
length-render [] = omega arith
length-render (comment text ∷ lines) =
    omega (arith, length-render lines, length-append text (10 ∷ render lines))
length-render (include pattern ∷ lines) =
    omega (arith, length-render lines, length-append pattern (10 ∷ render lines))
length-render (directory name ∷ lines) =
    omega (arith, length-render lines, length-append name (10 ∷ render lines))

-- If a file is the text of well-formed lines and its name has neither "i386" nor "lib32" in it, reading
-- it adds the directories of the lines, in order, and in the place of an include what the files add
-- that its pattern stands for; comments add nothing.
pub read_ldsoconf_dfs-lines :
    (sys : System) (depth : ℕ) (res : List Str) (name : Str) (lines : List Line)
    → sys.read_file name ≡ some (render lines)
    → (contains name (codes "i386") || contains name (codes "lib32")) ≡ false
    → All WellFormed lines
    → read_ldsoconf_dfs sys (suc depth) res name
      ≡ read_lines sys (include_all (read_ldsoconf_dfs sys depth)) res lines
unfolding read_ldsoconf_dfs
read_ldsoconf_dfs-lines sys depth res name lines found kept well =
    rw (found, kept, read_ldsoconf_dfs)
      (words-read sys (include_all (read_ldsoconf_dfs sys depth)) lines (length (render lines) + 1)
        res (render lines) well (omega (arith, length-render lines)) refl)
