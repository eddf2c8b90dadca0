-- ===== src/Utils/Split/Laws.antt =====
-- What SplitWith returns: the pieces that a delimiter ends.
use native.Mathlib.Nat.{zero-add, suc-add}
use sloader.Base.{
  ℕ, zero, suc, ◌+◌, ◌≤◌, ◌<◌, ◌≡◌, ◌∙◌, refl, ap, true, none, some, List, [], ◌∷◌, ◌++◌, arith,
  length, drop, Str, starts_with, Bool-cases, Option-cases, inl, inr, All, length-append,
  append_assoc,
}
use sloader.Result.{ok}
use sloader.Utils.Split.{find?, take, split_loop, split_with}

-- The pieces, each followed by the delimiter.
unfoldable pub joined : List Str → Str → Str
joined [] d = []
joined (p ∷ ps) d = p ++ (d ++ joined ps d)

-- A prefix is where it starts.
starts_with-append : (s d : Str) → starts_with s d ≡ true → s ≡ d ++ drop (length d) s
unfolding starts_with
starts_with-append s [] h = refl
starts_with-append [] (c ∷ d) h = cc
starts_with-append (b ∷ s) (c ∷ d) h = ground (arith, starts_with-append s d)

drop-length-le : (n : ℕ) (s : Str) → length (drop n s) ≤ length s
drop-length-le zero s = omega arith
drop-length-le (suc n) [] = omega arith
drop-length-le (suc n) (c ∷ s) = omega (arith, drop-length-le n s)

-- The text splits at the position found.
find?-splits :
    (s d : Str) (pos : ℕ) → find? s d ≡ some pos → s ≡ take pos s ++ (d ++ drop (pos + length d) s)
unfolding find?
find?-splits [] d pos h = elim (Bool-cases (starts_with [] d)) [
  | inl hit ↦
      let z : pos ≡ 0 = ground arith in rw (z, zero-add (length d)) (starts_with-append [] d hit)
  | inr miss ↦ absurd (ground arith)
]
find?-splits (c ∷ s) d pos h = elim (Bool-cases (starts_with (c ∷ s) d)) [
  | inl hit ↦
      let z : pos ≡ 0 = ground arith in
      rw (z, zero-add (length d)) (starts_with-append (c ∷ s) d hit)
  | inr miss ↦ elim (Option-cases (find? s d)) [
    | inl e ↦ absurd (ground arith)
    | inr (q, e) ↦
        let z : pos ≡ suc q = ground arith in
        rw (z, suc-add q (length d)) (ap (◌∷◌ c) (find?-splits s d q e))
  ]
]

starts_with-take : (n : ℕ) (s d : Str) → starts_with (take n s) d ≡ true → starts_with s d ≡ true
unfolding starts_with
starts_with-take n s [] h = refl
starts_with-take zero s (b ∷ d) h = cc
starts_with-take (suc n) [] (b ∷ d) h = h
starts_with-take (suc n) (c ∷ s) (b ∷ d) h = ground (arith, starts_with-take n s d)

find?-nil : (d : Str) → 0 < length d → find? [] d ≡ none
unfolding find? starts_with
find?-nil [] h = absurd (omega arith)
find?-nil (b ∷ d) h = refl

-- No occurrence comes before the position found.
find?-take :
    (s d : Str) (pos : ℕ) → 0 < length d → find? s d ≡ some pos → find? (take pos s) d ≡ none
unfolding find?
find?-take [] d pos p h = cc (find?-nil d p)
find?-take (c ∷ s) d pos p h = elim (Bool-cases (starts_with (c ∷ s) d)) [
  | inl hit ↦ let z : pos ≡ 0 = ground arith in rw z (find?-nil d p)
  | inr miss ↦ elim (Option-cases (find? s d)) [
    | inl e ↦ absurd (ground arith)
    | inr (q, e) ↦
        let z : pos ≡ suc q = ground arith in
        rw z (ground (arith, starts_with-take (suc q) (c ∷ s) d, find?-take s d q p e))
  ]
]

-- What the loop makes of a text: pieces free of the delimiter, and a rest free of it.
record Pieces (s d : Str) (ret : List Str) (rest : Str) : Type 0 where
  text : s ≡ joined ret d ++ rest
  pieces : All (λ p. find? p d ≡ none) ret
  last : find? rest d ≡ none

Pieces-cons :
    (s d : Str) (pos : ℕ) (ret : List Str) (rest : Str)
    → 0 < length d
    → find? s d ≡ some pos
    → Pieces (drop (pos + length d) s) d ret rest
    → Pieces s d (take pos s ∷ ret) rest
unfolding joined
Pieces-cons s d pos ret rest p h t = record {
  text = find?-splits s d pos h ∙ rw t.text (simp append_assoc);
  pieces = (find?-take s d pos p h, t.pieces);
  last = t.last;
}

split_loop-Pieces :
    (fuel : ℕ) (s d : Str)
    → 0 < length d
    → length s < fuel
    → (ret : List Str) × (rest : Str) × (split_loop fuel s d ≡ ok ret) × Pieces s d ret rest
unfolding split_loop joined
split_loop-Pieces zero s d p f = absurd (omega arith)
split_loop-Pieces (suc fuel) s d p f = elim (Option-cases (find? s d)) [
  | inl e ↦ ([], s, rw (e, split_loop), record { text = refl; pieces = tt; last = e })
  | inr (pos, e) ↦
      let (ret, rest, run, t) = split_loop-Pieces fuel (drop (pos + length d) s) d p (
        omega (
          arith,
          ap length (find?-splits s d pos e),
          length-append (take pos s) (d ++ drop (pos + length d) s),
          length-append d (drop (pos + length d) s),
        )) in
      (take pos s ∷ ret, rest, rw (e, split_loop) (rw run), Pieces-cons s d pos ret rest p e t)
]

-- For a delimiter that is not empty the loop ends. The text is the pieces returned, each followed by
-- the delimiter, and a rest that is dropped; neither a piece nor the rest has the delimiter in it.
pub split_with-pieces :
    (s d : Str)
    → 0 < length d
    → (ret : List Str) × (rest : Str) × (split_with s d ≡ ok ret)
      × (s ≡ joined ret d ++ rest)
      × All (λ p. find? p d ≡ none) ret
      × (find? rest d ≡ none)
unfolding split_with
split_with-pieces s d p =
    let (ret, rest, run, t) = split_loop-Pieces (length s + 1) s d p (omega arith) in
    (ret, rest, run, t.text, t.pieces, t.last)
