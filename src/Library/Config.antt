-- ===== src/Library/Config.antt =====
-- The files that read_ldsoconf reads, and why it ends.
use sloader.Base.{
  ℕ, zero, suc, ◌+◌, ◌<◌, ◌≤◌, ◌≡◌, ◌∙◌, sym, ap, refl, ◌||◌, Bool-cases, Option-cases, inl, inr,
  some, List, [], ◌∷◌, ◌++◌, append_assoc, ◌==◌, Str, str_eq, length, length-append, contains,
  codes, All, All-map, arith, true,
}
use sloader.Result.{Result, ok, ◌>>=◌}
use sloader.System.{System}
use sloader.Library.{
  is_space, skip_spaces, word_of, next_word, skip_line, by_head, ldsoconf_words, include_all,
  read_ldsoconf_dfs,
}
use sloader.Library.Includes.{
  words, patterns, skip_line-patterns, next_word-patterns, next_word-include,
}

-- `s` is the end of `text`.
pub record Ending (s text : Str) : Type 0 where
  pub before : Str
  pub joins : text ≡ before ++ s

Ending-refl : (s : Str) → Ending s s
Ending-refl s = record { before = []; joins = refl }

Ending-cons : (c : ℕ) {s text : Str} → Ending s text → Ending s (c ∷ text)
Ending-cons c e = record { before = c ∷ e.before; joins = ap (◌∷◌ c) e.joins }

Ending-length : {s text : Str} → Ending s text → length s ≤ length text
Ending-length {s} e = omega (arith, ap length e.joins, length-append e.before s)

skip_spaces-Ending : (s : Str) → Ending (skip_spaces s) s
unfolding skip_spaces
skip_spaces-Ending [] = Ending-refl []
skip_spaces-Ending (c ∷ s) = elim (Bool-cases (is_space c)) [
  | inl e ↦ rw e (Ending-cons c (skip_spaces-Ending s))
  | inr e ↦ rw e (Ending-refl (c ∷ s))
]

skip_line-Ending : (s : Str) → Ending (skip_line s) s
unfolding skip_line
skip_line-Ending [] = Ending-refl []
skip_line-Ending (c ∷ s) = elim (Bool-cases (c == 10)) [
  | inl e ↦ rw e (Ending-cons c (Ending-refl s))
  | inr e ↦ rw e (Ending-cons c (skip_line-Ending s))
]

word_of-joins : (s : Str) → s ≡ (word_of s).0 ++ (word_of s).1
unfolding word_of
word_of-joins [] = refl
word_of-joins (c ∷ s) = elim (Bool-cases (is_space c)) [
  | inl e ↦ rw e refl
  | inr e ↦ rw e (ap (◌∷◌ c) (word_of-joins s))
]

-- The word and what comes after it, in the text.
next_word-joins :
    (text : Str) → (before : Str) × (text ≡ before ++ ((next_word text).0 ++ (next_word text).1))
unfolding next_word
next_word-joins text =
    let e = skip_spaces-Ending text in
    (e.before, e.joins ∙ ap (◌++◌ e.before) (word_of-joins (skip_spaces text)))

next_word-Ending : (text : Str) → Ending (next_word text).1 text
next_word-Ending text =
    let (before, e) = next_word-joins text in
    record {
      before = before ++ (next_word text).0;
      joins = e ∙ sym (append_assoc before (next_word text).0 (next_word text).1);
    }

-- The call returns a list.
pub record Returns {ℓ} {A : Type ℓ} (m : Result A) : Type ℓ where
  pub value : A
  pub is_ok : m ≡ ok value

Returns-bind {ℓ κ} :
    {A : Type ℓ} {B : Type κ} (m : Result A) (f : A → Result B)
    → Returns m
    → ((a : A) → Returns (f a))
    → Returns (m >>= f)
Returns-bind m f r k =
    let s = k r.value in
    record { value = s.value; is_ok = ap (λ (n : Result _). n >>= f) r.is_ok ∙ s.is_ok }

Returns-by_head {ℓ} :
    {A : Type ℓ} (head : Str) {at_end comment include directory : Result A}
    → Returns at_end
    → (0 < length head
        → Returns comment
          × (str_eq head (codes "include") ≡ true → Returns include)
          × Returns directory)
    → Returns (by_head head at_end comment include directory)
unfolding by_head
Returns-by_head [] r k = r
Returns-by_head (c ∷ w) r k =
    let (c1, i1, d1) = k (omega arith) in
    elim (Bool-cases (c == b'#')) [
      | inl e ↦ rw e c1
      | inr e ↦ elim (Bool-cases (str_eq (c ∷ w) (codes "include"))) [
        | inl f ↦ rw (e, f) (i1 f)
        | inr f ↦ rw (e, f) d1
      ]
    ]

module _ (sys : System) where
  -- The files that a pattern stands for can be read.
  abbrev Readable : (List Str → List Str → Result (List Str)) → Str → Type 0
  Readable read_all p = (res : List Str) → Returns (read_all res (sys.glob p))

  -- The words of a text, when the files that it includes can be read.
  ldsoconf_words-Returns :
      (read_all : List Str → List Str → Result (List Str)) (fuel : ℕ) (res : List Str) (text : Str)
      → All (Readable read_all) (patterns (words text))
      → length text < fuel
      → Returns (ldsoconf_words sys read_all fuel res text)
  unfolding ldsoconf_words
  ldsoconf_words-Returns read_all zero res text reads h = absurd (omega (arith, h))
  ldsoconf_words-Returns read_all (suc fuel) res text reads h =
      let rest = (next_word text).1 in
      let rest_reads = next_word-patterns (Readable read_all) text reads in
      Returns-by_head (next_word text).0 (record { value = res; is_ok = refl })
        λ some_word.
          let shorter : length rest < fuel =
            (let (before, e) = next_word-joins text in
              omega (
                arith,
                h,
                some_word,
                ap length e,
                length-append before ((next_word text).0 ++ rest),
                length-append (next_word text).0 rest,
              )) in
          (
            ldsoconf_words-Returns read_all fuel res (skip_line rest)
                (skip_line-patterns (Readable read_all) rest rest_reads)
                (omega (arith, shorter, Ending-length (skip_line-Ending rest))),
            (λ is_include.
                Returns-bind (read_all res (sys.glob (next_word rest).0)) _
                  (next_word-include (Readable read_all) text is_include reads res)
                  (λ res'.
                    ldsoconf_words-Returns read_all fuel res' (next_word rest).1
                      (next_word-patterns (Readable read_all) rest rest_reads)
                      (omega (arith, shorter, Ending-length (next_word-Ending rest))))),
            ldsoconf_words-Returns read_all fuel (res ++ ((next_word text).0 ∷ [])) rest rest_reads
                shorter,
          )

  include_all-Returns :
      (read : List Str → Str → Result (List Str)) (files : List Str) (res : List Str)
      → All (λ (f : Str). (r : List Str) → Returns (read r f)) files
      → Returns (include_all read res files)
  unfolding include_all
  include_all-Returns read [] res h = (record { value = res; is_ok = refl })
  include_all-Returns read (f ∷ fs) res h =
      Returns-bind (read res f) _ (h.0 res) λ r. include_all-Returns read fs r h.1

  -- Includes are nested less than `depth` deep under the file: those of the files that its patterns
  -- stand for are nested less deep.
  unfoldable pub Nested : ℕ → Str → Type 0
  Nested zero name = ⊥
  Nested (suc depth) name =
      (text : Str)
      → sys.read_file name ≡ some text
      → All (λ p. All (Nested depth) (sys.glob p)) (patterns (words text))

  -- If includes are nested less than `depth` deep under a file, reading it returns a list of
  -- directories. The includes of a file are the words that follow a word "include" in it, in comments
  -- too.
  pub read_ldsoconf_dfs-Returns :
      (depth : ℕ) (res : List Str) (name : Str)
      → Nested depth name
      → Returns (read_ldsoconf_dfs sys depth res name)
  unfolding read_ldsoconf_dfs Nested
  read_ldsoconf_dfs-Returns zero res name n = absurd n
  read_ldsoconf_dfs-Returns (suc depth) res name n = elim (Option-cases (sys.read_file name)) [
    | inl e ↦ rw (e, read_ldsoconf_dfs) (record { value = res; is_ok = refl })
    | inr (text, e) ↦
        rw (e, read_ldsoconf_dfs)
          (elim (Bool-cases (contains name (codes "i386") || contains name (codes "lib32"))) [
            | inl f ↦ rw f (record { value = res; is_ok = refl })
            | inr f ↦ rw f (
                ldsoconf_words-Returns (include_all (read_ldsoconf_dfs sys depth)) (length text + 1)
                  res text
                  (All-map
                    (λ p files r. include_all-Returns (read_ldsoconf_dfs sys depth) (sys.glob p) r (
                      All-map (λ f k r'. read_ldsoconf_dfs-Returns depth r' f k) (sys.glob p)
                        files))
                    (patterns (words text)) (n text e))
                  (omega arith))
          ])
  ]
