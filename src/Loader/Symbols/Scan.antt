-- ===== src/Loader/Symbols/Scan.antt =====
-- The inner loop of SearchSym finds the first symbol of a table that fits.
use native.Mathlib.Nat.{zero-add, suc-add}
use sloader.Base.{
  ℕ, zero, suc, ◌+◌, ◌<◌, ◌≡◌, refl, inl, inr, Bool, true, false, none, some, List, [], ◌∷◌, arith,
  drop, get_elem?, Bool-cases,
}
use sloader.Elf.{Elf64Sym}
use sloader.Loader.Symbols.{first_sym}

pub get_elem?-drop {ℓ} :
    {A : Type ℓ} (k n : ℕ) (xs : List A) → get_elem? (drop k xs) n ≡ get_elem? xs (k + n)
get_elem?-drop zero n xs = rw (zero-add n)
get_elem?-drop (suc k) n [] = refl
get_elem?-drop (suc k) n (x ∷ xs) = rw (suc-add k n) (get_elem?-drop k n xs)

module _ (test : Elf64Sym → Bool) where
  pub record FirstSym (xs : List Elf64Sym) (n : ℕ) : Type 0 where
    pub sym : Elf64Sym
    pub at : get_elem? xs n ≡ some sym
    pub fits : test sym ≡ true
    pub earlier : (n' : ℕ) (s : Elf64Sym) → n' < n → get_elem? xs n' ≡ some s → test s ≡ false

  FirstSym-cons :
      (s : Elf64Sym) (xs : List Elf64Sym) (n : ℕ)
      → test s ≡ false
      → FirstSym xs n
      → FirstSym (s ∷ xs) (suc n)
  FirstSym-cons s xs n miss f = record { sym = f.sym; at = f.at; fits = f.fits; earlier = before }
    where
      before :
          (n' : ℕ) (t : Elf64Sym) → n' < suc n → get_elem? (s ∷ xs) n' ≡ some t → test t ≡ false
      before zero t lt e = ground arith
      before (suc n') t lt e = f.earlier n' t (omega arith) e

  pub first_sym-some :
      (j : ℕ) (xs : List Elf64Sym) (r : ℕ)
      → first_sym test j xs ≡ some r
      → (n : ℕ) × (r ≡ j + n) × FirstSym xs n
  unfolding first_sym
  first_sym-some j [] r h = cc
  first_sym-some j (s ∷ xs) r h = elim (Bool-cases (test s)) [
    | inl hit ↦ (
      0,
      ground arith,
      record { sym = s; at = refl; fits = hit; earlier = λ n' t lt e. absurd (omega arith) },
    )
    | inr miss ↦
        let (n, e, f) = first_sym-some (suc j) xs r (ground arith) in
        (suc n, omega arith, FirstSym-cons s xs n miss f)
  ]

  pub first_sym-none :
      (j : ℕ) (xs : List Elf64Sym)
      → first_sym test j xs ≡ none
      → (n : ℕ) (s : Elf64Sym) → get_elem? xs n ≡ some s
      → test s ≡ false
  unfolding first_sym
  first_sym-none j [] h n s e = cc
  first_sym-none j (t ∷ xs) h zero s e = ground arith
  first_sym-none j (t ∷ xs) h (suc n) s e = first_sym-none (suc j) xs (ground arith) n s e
