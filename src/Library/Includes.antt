-- ===== src/Library/Includes.antt =====
-- What a configuration file includes: the words that follow a word "include".
use sloader.Base.{
  ℕ, ◌≡◌, ◌∙◌, sym, ap, subst, refl, Bool-cases, inl, inr, List, [], ◌∷◌, ◌==◌, Str, str_eq, codes,
  All, arith, true, false, if◌then◌else◌,
}
use sloader.Library.{is_space, skip_spaces, word_of, next_word, skip_line}

-- A word that has ended, and the words behind it.
unfoldable keep : Str → List Str → List Str
keep [] ws = ws
keep (c ∷ w) ws = (c ∷ w) ∷ ws

-- The letters up to the next space, and the words behind them.
unfoldable pieces : Str → Str × List Str
unfolding keep
pieces [] = ([], [])
pieces (c ∷ s) = let (w, ws) = pieces s in if is_space c then ([], keep w ws) else (c ∷ w, ws)

-- The words of a text, which stand between its spaces and line ends.
unfoldable pub words : Str → List Str
unfolding pieces
words s = keep (pieces s).0 (pieces s).1

unfoldable pub first_or_empty : List Str → Str
first_or_empty [] = []
first_or_empty (w ∷ ws) = w

-- The words that come after a word "include"; a last "include" has the empty pattern.
unfoldable pub patterns : List Str → List Str
unfolding first_or_empty
patterns [] = []
patterns (w ∷ ws) =
    let rest = patterns ws in if str_eq w (codes "include") then first_or_empty ws ∷ rest else rest

pieces-word_of : (s : Str) → pieces s ≡ ((word_of s).0, words (word_of s).1)
unfolding pieces word_of words keep
pieces-word_of [] = refl
pieces-word_of (c ∷ s) = elim (Bool-cases (is_space c)) [
  | inl e ↦ rw e (rw e refl)
  | inr e ↦ rw e (rw (pieces-word_of s) refl)
]

skip_spaces-plain :
    (c : ℕ) (s : Str) → is_space c ≡ false → ◌≡◌ {A = Str} (skip_spaces (c ∷ s)) (c ∷ s)
unfolding skip_spaces
skip_spaces-plain c s e = rw e refl

skip_spaces-words : (s : Str) → words (skip_spaces s) ≡ words s
unfolding skip_spaces words pieces keep
skip_spaces-words [] = refl
skip_spaces-words (c ∷ s) = elim (Bool-cases (is_space c)) [
  | inl e ↦ rw e (skip_spaces-words s)
  | inr e ↦ ap words (skip_spaces-plain c s e)
]

-- `f >> head` takes the first word of those that are left.
words-next_word : (s : Str) → words s ≡ keep (next_word s).0 (words (next_word s).1)
unfolding next_word words
words-next_word s =
    sym (skip_spaces-words s)
    ∙ ap (λ (p : Str × List Str). keep p.0 p.1) (pieces-word_of (skip_spaces s))

cons_not_nil : {c : ℕ} {s : Str} → ◌≡◌ {A = Str} (c ∷ s) [] → ⊥
cons_not_nil h = cc

-- If there is no word left, there is nothing left.
next_word-none : (s : Str) → (next_word s).0 ≡ [] → words (next_word s).1 ≡ []
unfolding next_word skip_spaces word_of words pieces
next_word-none [] h = refl
next_word-none (c ∷ s) h = elim (Bool-cases (is_space c)) [
  | inl e ↦ rw e (next_word-none s (rw (e, skip_spaces) at h))
  | inr e ↦ absurd (cons_not_nil (rw (e, word_of) at (rw (e, skip_spaces) at h)))
]

first_keep : (w : Str) (ws : List Str) → (w ≡ [] → ws ≡ []) → first_or_empty (keep w ws) ≡ w
unfolding keep first_or_empty
first_keep [] ws h = rw (h refl) refl
first_keep (c ∷ w) ws h = refl

first_next_word : (s : Str) → first_or_empty (words s) ≡ (next_word s).0
first_next_word s =
    ap first_or_empty (words-next_word s)
    ∙ first_keep (next_word s).0 (words (next_word s).1) (next_word-none s)

newline_space : (c : ℕ) → (c == 10) ≡ true → is_space c ≡ true
unfolding is_space
newline_space c e = ground arith

-- A property of the patterns of a text is one of those of the rest of the text.
module _ (P : Str → Type 0) where
  patterns-tail : (w : Str) (ws : List Str) → All P (patterns (w ∷ ws)) → All P (patterns ws)
  unfolding patterns
  patterns-tail w ws h = elim (Bool-cases (str_eq w (codes "include"))) [
    | inl e ↦ (rw (e, patterns) at h).1
    | inr e ↦ rw (e, patterns) at h
  ]

  patterns-keep : (w : Str) (ws : List Str) → All P (patterns (keep w ws)) → All P (patterns ws)
  unfolding keep
  patterns-keep [] ws h = h
  patterns-keep (c ∷ w) ws h = patterns-tail (c ∷ w) ws h

  patterns-include :
      (w : Str) (ws : List Str)
      → str_eq w (codes "include") ≡ true
      → All P (patterns (keep w ws))
      → P (first_or_empty ws)
  unfolding keep patterns
  patterns-include [] ws e h = cc
  patterns-include (c ∷ w) ws e h = (rw (e, patterns) at h).0

  skip_line-pieces :
      (s : Str) → All P (patterns (pieces s).1) → All P (patterns (words (skip_line s)))
  unfolding skip_line pieces words is_space keep patterns
  skip_line-pieces [] h = tt
  skip_line-pieces (c ∷ s) h = elim (Bool-cases (c == 10)) [
    | inl e ↦ rw e (rw (newline_space c e, pieces) at h)
    | inr e ↦ rw e (
        skip_line-pieces s (elim (Bool-cases (is_space c)) [
          | inl f ↦ patterns-keep (pieces s).0 (pieces s).1 (rw (f, pieces) at h)
          | inr f ↦ rw (f, pieces) at h
        ]))
  ]

  pub skip_line-patterns :
      (s : Str) → All P (patterns (words s)) → All P (patterns (words (skip_line s)))
  unfolding words
  skip_line-patterns s h = skip_line-pieces s (patterns-keep (pieces s).0 (pieces s).1 h)

  pub next_word-patterns :
      (s : Str) → All P (patterns (words s)) → All P (patterns (words (next_word s).1))
  next_word-patterns s h =
      patterns-keep (next_word s).0 (words (next_word s).1) (rw (words-next_word s) at h)

  -- The word after an "include" is a pattern.
  pub next_word-include :
      (s : Str)
      → str_eq (next_word s).0 (codes "include") ≡ true
      → All P (patterns (words s))
      → P (next_word (next_word s).1).0
  next_word-include s e h =
      subst P (first_next_word (next_word s).1)
        (patterns-include (next_word s).0 (words (next_word s).1) e (rw (words-next_word s) at h))
