-- ===== src/Binary/Dynamic/Tables.antt =====
-- The strings, relocations and symbols that ParseDynamic leaves in the binary.
use sloader.Base.{
  ℕ, zero, suc, ◌+◌, ◌/◌, ◌%◌, ◌≤◌, ◌<◌, ◌≡◌, sym, subst, refl, Bool, true, false, List, [], ◌∷◌,
  ◌++◌, append-nil, ltb, ◌==◌, if◌then◌else◌, arith, Bool-cases, ◌⊎◌, inl, inr,
}
use sloader.Result.{Result, ok, ok-injective, >>=-eq-ok, check-eq-ok}
use sloader.Memory.{Mem}
use sloader.Elf.{Elf64Rela, Elf64Sym, read_sym}
use sloader.Elf.Tags.{dt_rela}
use sloader.Binary.{ElfBinary}
use sloader.Binary.Dynamic.{
  sym_size, read_relas, read_syms, log_syms, entry_count, parse_relas, parse_pltrelas,
  parse_symbols, symbol_fuel,
}

-- A table at `a`, where a null pointer means that there is none.
unfoldable pub table_at : Mem → ℕ → ℕ → ℕ → List Elf64Rela
table_at m a size entry = if a == 0 then [] else read_relas m (size / entry) a

entry_count-eq-ok : (size entry n : ℕ) → entry_count size entry ≡ ok n → n ≡ size / entry
unfolding entry_count
entry_count-eq-ok size entry n h = elim (Bool-cases (entry == 0)) [
  | inl e ↦ absurd (ground arith)
  | inr e ↦
      let (whole, k) = check-eq-ok (size % entry == 0) _ (rw (e, entry_count) at h) in
      sym (ok-injective k)
]

pub parse_relas-table :
    (m : Mem) (b b' : ElfBinary)
    → parse_relas m b ≡ ok b'
    → b' ≡ record b { relas = b.relas ++ table_at m b.rela b.relasz b.relaent }
unfolding parse_relas table_at
parse_relas-table m b b' h = elim (Bool-cases (b.rela == 0)) [
  | inl e ↦ rw (e, append-nil b.relas) (sym (ok-injective (rw (e, parse_relas) at h)))
  | inr e ↦
      let (n, count, k) = >>=-eq-ok (entry_count b.relasz b.relaent) _ (rw (e, parse_relas) at h) in
      rw (e, ← entry_count-eq-ok b.relasz b.relaent n count) (sym (ok-injective k))
]

pub parse_pltrelas-table :
    (m : Mem) (b b' : ElfBinary)
    → parse_pltrelas m b ≡ ok b'
    → b' ≡ record b { pltrelas = b.pltrelas ++ table_at m b.jmprel b.pltrelsz b.pltrelent }
unfolding parse_pltrelas table_at
parse_pltrelas-table m b b' h = elim (Bool-cases (b.jmprel == 0)) [
  | inl e ↦ rw (e, append-nil b.pltrelas) (sym (ok-injective (rw (e, parse_pltrelas) at h)))
  | inr e ↦
      let (n, count, h1) =
        >>=-eq-ok (entry_count b.pltrelsz b.pltrelent) _ (rw (e, parse_pltrelas) at h) in
      let (kind, k) = check-eq-ok (b.pltrel == dt_rela) _ h1 in
      rw (e, ← entry_count-eq-ok b.pltrelsz b.pltrelent n count) (sym (ok-injective k))
]

-- The symbols from `a` on, up to the first one whose name is not in the string table.
pub data Run (m : Mem) (strsz : ℕ) : ℕ → List Elf64Sym → Type 0 where
  stop : (a : ℕ) → strsz ≤ (read_sym m a).st_name → Run m strsz a []
  next :
      (a : ℕ) (rest : List Elf64Sym)
      → (read_sym m a).st_name < strsz
      → Run m strsz (a + sym_size) rest
      → Run m strsz a (read_sym m a ∷ rest)

read_syms-Run :
    (fuel : ℕ) (m : Mem) (strsz a : ℕ) (syms : List Elf64Sym)
    → read_syms fuel m strsz a ≡ ok syms
    → Run m strsz a syms
unfolding read_syms
read_syms-Run zero m strsz a syms h = cc
read_syms-Run (suc fuel) m strsz a syms h = elim (Bool-cases (ltb (read_sym m a).st_name strsz)) [
  | inl e ↦
      let (rest, run, k) =
        >>=-eq-ok (read_syms fuel m strsz (a + sym_size)) _ (rw (e, read_syms) at h) in
      subst (Run m strsz a) (ok-injective k)
        (next a rest (ground (arith, e)) (read_syms-Run fuel m strsz (a + sym_size) rest run))
  | inr e ↦
      subst (Run m strsz a) (ok-injective (rw (e, read_syms) at h)) (stop a (ground (arith, e)))
]

-- The symbol table at `a`: its first entry whatever it is, then a run; none at a null pointer.
pub data SymbolTable (m : Mem) (strsz : ℕ) : ℕ → List Elf64Sym → Type 0 where
  no_table : SymbolTable m strsz 0 []
  symbols :
      (a : ℕ) (rest : List Elf64Sym)
      → (a == 0) ≡ false
      → Run m strsz (a + sym_size) rest
      → SymbolTable m strsz a (read_sym m a ∷ rest)

null_pointer : (a : ℕ) → (a == 0) ≡ true → 0 ≡ a
null_pointer a e = ground (arith, e)

if-eq-ok {ℓ} :
    {A : Type ℓ} (c : Bool) (m n : Result A) {a : A}
    → (if c then m else n) ≡ ok a
    → ((c ≡ true) × (m ≡ ok a)) ⊎ ((c ≡ false) × (n ≡ ok a))
if-eq-ok true m n h = inl (refl, h)
if-eq-ok false m n h = inr (refl, h)

pub parse_symbols-SymbolTable :
    (m : Mem) (b b' : ElfBinary)
    → parse_symbols m b ≡ ok b'
    → (syms : List Elf64Sym) × (b' ≡ record b { symtabs = b.symtabs ++ syms })
      × SymbolTable m b.strsz b.symtab syms
unfolding parse_symbols
parse_symbols-SymbolTable m b b' h = elim (if-eq-ok (b.symtab == 0) _ _ h) [
  | inl (e, k) ↦ (
    [],
    rw (append-nil b.symtabs) (sym (ok-injective k)),
    subst (λ (a : ℕ). SymbolTable m b.strsz a []) (null_pointer b.symtab e) no_table,
  )
  | inr (e, h0) ↦
      let (more, run, h1) =
        >>=-eq-ok (read_syms symbol_fuel m b.strsz (b.symtab + sym_size)) _ h0 in
      let (u, logged, k) =
        >>=-eq-ok (log_syms m b.strtab (b.symtabs ++ (read_sym m b.symtab ∷ more))) _ h1 in
      (
        read_sym m b.symtab ∷ more,
        sym (ok-injective k),
        symbols b.symtab more e
            (read_syms-Run symbol_fuel m b.strsz (b.symtab + sym_size) more run),
      )
]
