-- ===== src/Loader/Symbols/Names.antt =====
-- The searches see the memory only through the symbols' names, and the names stay where no write
-- reaches them.
use sloader.Base.{
  ℕ, zero, suc, ◌+◌, ◌^◌, ◌≤◌, ◌<◌, ◌≡◌, ◌∙◌, sym, refl, ◌⊎◌, Bool, true, false, List, [], ◌∷◌,
  arith, All, All-map, length, drop, or_else, Str,
}
use sloader.Memory.{Mem}
use sloader.Memory.Laws.{HoldsString, HoldsString-ext, c_str_holds, Outside}
use sloader.Elf.{Elf64Sym}
use sloader.Binary.{ElfBinary}
use sloader.Loader.Symbols.{
  sym_name, is_defined, is_weak_undefined, first_sym, first_binary, search_sym,
}

-- Both memories give every symbol the same name.
abbrev pub Agree : Mem → Mem → List ElfBinary → Type 0
Agree m g bins = All (λ b. All (λ s. sym_name m b s ≡ sym_name g b s) b.symtabs) bins

first_sym-ext :
    (p q : Elf64Sym → Bool) (j : ℕ) (syms : List Elf64Sym)
    → All (λ s. p s ≡ q s) syms
    → first_sym p j syms ≡ first_sym q j syms
unfolding first_sym
first_sym-ext p q j [] h = refl
first_sym-ext p q j (s ∷ syms) (e, h) = rw (e, first_sym-ext p q (suc j) syms h)

first_binary-ext :
    (p q : ElfBinary → Elf64Sym → Bool) (i : ℕ) (bins : List ElfBinary)
    → All (λ b. All (λ s. p b s ≡ q b s) b.symtabs) bins
    → first_binary p i bins ≡ first_binary q i bins
unfolding first_binary
first_binary-ext p q i [] h = refl
first_binary-ext p q i (b ∷ bins) (e, h) =
    rw (first_sym-ext (p b) (q b) 0 b.symtabs e, first_binary-ext p q (suc i) bins h)

All-drop {ℓ κ} : {A : Type ℓ} (P : A → Type κ) (n : ℕ) (xs : List A) → All P xs → All P (drop n xs)
All-drop P zero xs h = h
All-drop P (suc n) [] h = h
All-drop P (suc n) (x ∷ xs) h = All-drop P n xs h.1

module _ (m g : Mem) (name : Str) where
  is_defined-ext :
      (b : ElfBinary) (s : Elf64Sym)
      → sym_name m b s ≡ sym_name g b s
      → is_defined m name b s ≡ is_defined g name b s
  unfolding is_defined
  is_defined-ext b s e = rw e

  is_weak_undefined-ext :
      (b : ElfBinary) (s : Elf64Sym)
      → sym_name m b s ≡ sym_name g b s
      → is_weak_undefined m name b s ≡ is_weak_undefined g name b s
  unfolding is_weak_undefined
  is_weak_undefined-ext b s e = rw e

  search_from-Agree :
      (bins : List ElfBinary) (start : ℕ)
      → Agree m g bins
      → or_else
          (first_binary (is_defined m name) start (drop start bins))
          (first_binary (is_weak_undefined m name) start (drop start bins))
        ≡ or_else
            (first_binary (is_defined g name) start (drop start bins))
            (first_binary (is_weak_undefined g name) start (drop start bins))
  search_from-Agree bins start h =
      let tail =
        All-drop (λ (b : ElfBinary). All (λ s. sym_name m b s ≡ sym_name g b s) b.symtabs) start
          bins h in
      rw (
        first_binary-ext (is_defined m name) (is_defined g name) start (drop start bins) (
            All-map (λ (b : ElfBinary) k. All-map (is_defined-ext b) b.symtabs k) (drop start bins)
              tail),
        first_binary-ext (is_weak_undefined m name) (is_weak_undefined g name) start
            (drop start bins)
            (All-map (λ (b : ElfBinary) k. All-map (is_weak_undefined-ext b) b.symtabs k)
              (drop start bins) tail),
      )

  pub search_sym-Agree :
      (bins : List ElfBinary) (skip_main : Bool)
      → Agree m g bins
      → search_sym m bins name skip_main ≡ search_sym g bins name skip_main
  unfolding search_sym
  search_sym-Agree bins true h = search_from-Agree bins 1 h
  search_sym-Agree bins false h = search_from-Agree bins 0 h

-- An address, and the number of bytes from there on.
abbrev pub Area : Type 0
Area = ℕ × ℕ

-- The symbol's name is a terminated string that none of the areas touches.
pub record NameClear (m : Mem) (areas : List Area) (b : ElfBinary) (s : Elf64Sym) : Type 0 where
  pub text : Str
  pub holds : HoldsString m (b.strtab + s.st_name) text
  pub short : length text < 2 ^ 64
  pub clear :
      All
        (λ (a : Area).
          (a.0 + a.1 ≤ b.strtab + s.st_name) ⊎ (b.strtab + s.st_name + length text < a.0))
        areas

abbrev pub NamesClear : Mem → List Area → List ElfBinary → Type 0
NamesClear m areas bins = All (λ b. All (NameClear m areas b) b.symtabs) bins

-- The byte lies in none of the areas.
abbrev pub Spared : List Area → ℕ → Type 0
Spared areas x = All (λ (a : Area). Outside a.0 a.1 x) areas

-- `g` differs from `m` at most in the areas.
abbrev pub DiffersAt : List Area → Mem → Mem → Type 0
DiffersAt areas m g = (x : ℕ) → Spared areas x → g x ≡ m x

module _ (m g : Mem) (areas : List Area) (same : DiffersAt areas m g) where
  sym_name-kept :
      (b : ElfBinary) (s : Elf64Sym) → NameClear m areas b s → sym_name m b s ≡ sym_name g b s
  unfolding sym_name
  sym_name-kept b s c =
      c_str_holds m (b.strtab + s.st_name) c.text c.holds c.short
      ∙ sym (
          c_str_holds g (b.strtab + s.st_name) c.text
            (HoldsString-ext m g (b.strtab + s.st_name) c.text
              (λ x lo hi. same x (All-map (λ a k. omega arith) areas c.clear)) c.holds)
            c.short)

  pub NamesClear-Agree : (bins : List ElfBinary) → NamesClear m areas bins → Agree m g bins
  NamesClear-Agree bins h =
      All-map (λ (b : ElfBinary) k. All-map (sym_name-kept b) b.symtabs k) bins h
