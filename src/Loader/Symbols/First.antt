-- ===== src/Loader/Symbols/First.antt =====
-- SearchSym finds the first definition of a name, and failing that its first weak reference.
use native.Mathlib.Nat.{zero-add}
use sloader.Base.{
  ℕ, zero, suc, ◌+◌, ◌-◌, ◌≤◌, ◌<◌, ◌≡◌, refl, ap, ◌∙◌, ◌⊎◌, inl, inr, Bool, true, false, Option,
  none, some, List, [], ◌∷◌, arith, if◌then◌else◌, drop, get_elem?, Str, or_else, Option-cases,
}
use mathlib.Core.Option.{some-injective}
use sloader.Memory.{Mem}
use sloader.Elf.{Elf64Sym}
use sloader.Binary.{ElfBinary}
use sloader.Loader.Symbols.{first_sym, first_binary, is_defined, is_weak_undefined, search_sym}
use sloader.Loader.Symbols.Scan.{get_elem?-drop, FirstSym, first_sym-some, first_sym-none}

-- The symbol `j` of the binary `i` is `s`, the binary `b`.
pub record Entry (bins : List ElfBinary) (i j : ℕ) (b : ElfBinary) (s : Elf64Sym) : Type 0 where
  pub binary : get_elem? bins i ≡ some b
  pub symbol : get_elem? b.symtabs j ≡ some s

module _ (test : ElfBinary → Elf64Sym → Bool) where
  -- No symbol of the binaries from `start` on fits.
  abbrev pub NoneFits : ℕ → List ElfBinary → Type 0
  NoneFits start bins =
      (i j : ℕ) (b : ElfBinary) (s : Elf64Sym) → start ≤ i → Entry bins i j b s → test b s ≡ false

  -- `(i, j)` is the first pair of indices from `start` on at which a symbol fits.
  pub record IsFirst (start : ℕ) (bins : List ElfBinary) (i j : ℕ) : Type 0 where
    pub b : ElfBinary
    pub s : Elf64Sym
    pub from : start ≤ i
    pub entry : Entry bins i j b s
    pub fits : test b s ≡ true
    pub earlier :
        (i' j' : ℕ) (b' : ElfBinary) (s' : Elf64Sym)
        → start ≤ i'
        → (i' < i) ⊎ ((i' ≡ i) × (j' < j))
        → Entry bins i' j' b' s'
        → test b' s' ≡ false

  Entry-zero :
      {bins : List ElfBinary} {b c : ElfBinary} {s : Elf64Sym} {j : ℕ}
      → Entry (b ∷ bins) 0 j c s
      → (b ≡ c) × (get_elem? c.symtabs j ≡ some s)
  Entry-zero e = (some-injective _ _ e.binary, e.symbol)

  IsFirst-head :
      (b : ElfBinary) (bins : List ElfBinary) (j : ℕ)
      → FirstSym (test b) b.symtabs j
      → IsFirst 0 (b ∷ bins) 0 j
  IsFirst-head b bins j f = record {
    b = b;
    s = f.sym;
    from = omega arith;
    entry = record { binary = refl; symbol = f.at };
    fits = f.fits;
    earlier = before;
  }
    where
      before :
          (i' j' : ℕ) (b' : ElfBinary) (s' : Elf64Sym)
          → 0 ≤ i'
          → (i' < 0) ⊎ ((i' ≡ 0) × (j' < j))
          → Entry (b ∷ bins) i' j' b' s'
          → test b' s' ≡ false
      before zero j' b' s' _ (inl lt) e = absurd (omega arith)
      before zero j' b' s' _ (inr (z, lt)) e =
          let same : b ≡ b' = (Entry-zero e).0 in
          rw (← same) (f.earlier j' s' lt (rw same e.symbol))
      before (suc i') j' b' s' _ (inl lt) e = absurd (omega arith)
      before (suc i') j' b' s' _ (inr (z, lt)) e = absurd (omega arith)

  IsFirst-cons :
      (b : ElfBinary) (bins : List ElfBinary) (n j : ℕ)
      → ((k : ℕ) (s : Elf64Sym) → get_elem? b.symtabs k ≡ some s → test b s ≡ false)
      → IsFirst 0 bins n j
      → IsFirst 0 (b ∷ bins) (suc n) j
  IsFirst-cons b bins n j miss f = record {
    b = f.b;
    s = f.s;
    from = omega arith;
    entry = record { binary = f.entry.binary; symbol = f.entry.symbol };
    fits = f.fits;
    earlier = before;
  }
    where
      before :
          (i' j' : ℕ) (b' : ElfBinary) (s' : Elf64Sym)
          → 0 ≤ i'
          → (i' < suc n) ⊎ ((i' ≡ suc n) × (j' < j))
          → Entry (b ∷ bins) i' j' b' s'
          → test b' s' ≡ false
      before zero j' b' s' _ o e =
          let same : b ≡ b' = (Entry-zero e).0 in rw (← same) (miss j' s' (rw same e.symbol))
      before (suc i') j' b' s' _ o e =
          f.earlier i' j' b' s' (omega arith) (omega arith)
            (record { binary = e.binary; symbol = e.symbol })

  NoneFits-cons :
      (b : ElfBinary) (bins : List ElfBinary)
      → ((k : ℕ) (s : Elf64Sym) → get_elem? b.symtabs k ≡ some s → test b s ≡ false)
      → NoneFits 0 bins
      → NoneFits 0 (b ∷ bins)
  NoneFits-cons b bins miss rest zero j b' s' _ e =
      let same : b ≡ b' = (Entry-zero e).0 in rw (← same) (miss j s' (rw same e.symbol))
  NoneFits-cons b bins miss rest (suc i) j b' s' _ e =
      rest i j b' s' (omega arith) (record { binary = e.binary; symbol = e.symbol })

  -- What a pass from the index `i` returns, in terms of the binaries that it walks.
  abbrev Outcome : ℕ → List ElfBinary → Option (ℕ × ℕ) → Type 0
  Outcome i bins none = NoneFits 0 bins
  Outcome i bins (some (i', j)) = (n : ℕ) × (i' ≡ i + n) × IsFirst 0 bins n j

  Outcome-cons :
      (i : ℕ) (b : ElfBinary) (bins : List ElfBinary) (o : Option (ℕ × ℕ))
      → ((k : ℕ) (s : Elf64Sym) → get_elem? b.symtabs k ≡ some s → test b s ≡ false)
      → Outcome (suc i) bins o
      → Outcome i (b ∷ bins) o
  Outcome-cons i b bins none miss rest = NoneFits-cons b bins miss rest
  Outcome-cons i b bins (some (i', j)) miss (n, e, f) =
      (suc n, omega arith, IsFirst-cons b bins n j miss f)

  first_binary-Outcome : (i : ℕ) (bins : List ElfBinary) → Outcome i bins (first_binary test i bins)
  unfolding first_binary
  first_binary-Outcome i [] = λ k j b s _ e. cc (e.binary)
  first_binary-Outcome i (b ∷ bins) = elim (Option-cases (first_sym (test b) 0 b.symtabs)) [
    | inl e ↦ rw e (
        Outcome-cons i b bins _ (first_sym-none (test b) 0 b.symtabs e)
          (first_binary-Outcome (suc i) bins))
    | inr (j, e) ↦
        let (n, same, f) = first_sym-some (test b) 0 b.symtabs j e in
        rw e (0, omega arith, IsFirst-head b bins j (rw (same ∙ zero-add n) f))
  ]

  IsFirst-drop :
      (k : ℕ) (bins : List ElfBinary) (n j : ℕ)
      → IsFirst 0 (drop k bins) n j
      → IsFirst k bins (k + n) j
  IsFirst-drop k bins n j f = record {
    b = f.b;
    s = f.s;
    from = omega arith;
    entry = record {
      binary = rw (← get_elem?-drop k n bins) f.entry.binary;
      symbol = f.entry.symbol;
    };
    fits = f.fits;
    earlier = λ i' j' b' s' from order e.
        f.earlier (i' - k) j' b' s' (omega arith) (omega arith) (record {
          binary = get_elem?-drop k (i' - k) bins ∙ (ap (get_elem? bins) (omega arith) ∙ e.binary);
          symbol = e.symbol;
        });
  }

  NoneFits-drop : (k : ℕ) (bins : List ElfBinary) → NoneFits 0 (drop k bins) → NoneFits k bins
  NoneFits-drop k bins h i j b s from e = h (i - k) j b s (omega arith) (record {
    binary = get_elem?-drop k (i - k) bins ∙ (ap (get_elem? bins) (omega arith) ∙ e.binary);
    symbol = e.symbol;
  })

  -- One pass of the search over the binaries from `k` on.
  abbrev Pass : ℕ → List ElfBinary → Option (ℕ × ℕ) → Type 0
  Pass k bins none = NoneFits k bins
  Pass k bins (some (i, j)) = IsFirst k bins i j

  Outcome-Pass :
      (k : ℕ) (bins : List ElfBinary) (o : Option (ℕ × ℕ))
      → Outcome k (drop k bins) o
      → Pass k bins o
  Outcome-Pass k bins none h = NoneFits-drop k bins h
  Outcome-Pass k bins (some (i, j)) (n, e, f) = rw e (IsFirst-drop k bins n j f)

  first_binary-Pass :
      (k : ℕ) (bins : List ElfBinary) → Pass k bins (first_binary test k (drop k bins))
  first_binary-Pass k bins = Outcome-Pass k bins _ (first_binary-Outcome k (drop k bins))

-- What SearchSym promises: the first definition, or if there is none the first weak undefined
-- reference, or nothing if there is neither.
abbrev pub Resolves : Mem → List ElfBinary → Str → ℕ → Option (ℕ × ℕ) → Type 0
Resolves m bins name start none =
    NoneFits (is_defined m name) start bins × NoneFits (is_weak_undefined m name) start bins
Resolves m bins name start (some (i, j)) =
    IsFirst (is_defined m name) start bins i j
    ⊎ (NoneFits (is_defined m name) start bins × IsFirst (is_weak_undefined m name) start bins i j)

weak-Resolves :
    (m : Mem) (bins : List ElfBinary) (name : Str) (start : ℕ) (o : Option (ℕ × ℕ))
    → NoneFits (is_defined m name) start bins
    → Pass (is_weak_undefined m name) start bins o
    → Resolves m bins name start o
weak-Resolves m bins name start none d w = (d, w)
weak-Resolves m bins name start (some (i, j)) d w = inr (d, w)

search_from :
    (m : Mem) (bins : List ElfBinary) (name : Str) (start : ℕ)
    → Resolves m bins name start (
        or_else
          (first_binary (is_defined m name) start (drop start bins))
          (first_binary (is_weak_undefined m name) start (drop start bins)))
search_from m bins name start =
    choose (first_binary (is_defined m name) start (drop start bins))
      (first_binary-Pass (is_defined m name) start bins)
  where
    choose :
        (o : Option (ℕ × ℕ))
        → Pass (is_defined m name) start bins o
        → Resolves m bins name start
            (or_else o (first_binary (is_weak_undefined m name) start (drop start bins)))
    choose none d =
        weak-Resolves m bins name start _ d
          (first_binary-Pass (is_weak_undefined m name) start bins)
    choose (some (i, j)) d = inl d

-- SearchSym returns the indices of the first symbol, in the order of loading, that defines the name;
-- if no symbol defines it, those of the first weak undefined symbol of that name; and nothing only if
-- there is neither. The executable itself is left out if `skip_main` is set.
pub search_sym-Resolves :
    (m : Mem) (bins : List ElfBinary) (name : Str) (skip_main : Bool)
    → Resolves m bins name (if skip_main then 1 else 0) (search_sym m bins name skip_main)
unfolding search_sym
search_sym-Resolves m bins name true = search_from m bins name 1
search_sym-Resolves m bins name false = search_from m bins name 0
