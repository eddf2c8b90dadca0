-- ===== src/Loader/Relocate/Values.antt =====
-- What stands in a relocated slot when the relocations of its binary are done.
use sloader.Base.{
  ℕ, ◌+◌, ◌≤◌, ◌<◌, ◌≡◌, ◌∙◌, sym, ap, refl, ◌⊎◌, false, some, List, [], ◌∷◌, ◌++◌, arith, All,
  All-get_elem?, Str, Option-cases, inl, inr, get_elem?, map,
}
use sloader.Base.Words.{add64}
use sloader.Result.{ok, >>=-eq-ok, ok-injective}
use mathlib.Core.Option.{some-injective}
use sloader.Memory.{Mem, read64, write64}
use sloader.Memory.Laws.{Outside, read64-write64, read64_ext}
use sloader.Elf.{Elf64Rela, Elf64Sym, r_sym, r_type}
use sloader.Elf.Relocs.{r64, glob_dat, jump_slot, relative, irelative}
use sloader.Binary.{ElfBinary}
use sloader.Loader.Symbols.{sym_name}
use sloader.Loader.Symbols.Names.{
  Area, Spared, Agree, search_sym-Agree, NamesClear, NamesClear-Agree, DiffersAt,
}
use sloader.Loader.Relocate.{
  Libc, at_index, found_addr, resolve, reloc_addr, write_resolved, apply_symbol, case_of,
  apply_case, relocate_rela, relocate_relas,
}
use sloader.Loader.Relocate.Frame.{MaxSize, reach, at_index-eq-ok, relocate_relas-Reach}

-- The eight bytes of the slot lie apart from `bound` bytes at another slot.
abbrev Apart : ℕ → ℕ → ℕ → Type 0
Apart bound slot other = (slot + 8 ≤ other) ⊎ (other + bound ≤ slot)

-- The relocation does not write to the eight bytes of the slot.
abbrev pub Misses : ElfBinary → ℕ → ℕ → Elf64Rela → Type 0
Misses bin bound slot r = Apart (reach bound r) slot (reloc_addr bin r)

-- Where the relocations of a binary write.
abbrev pub areas : ElfBinary → ℕ → List Elf64Rela → List Area
areas bin bound rs = map (λ (r : Elf64Rela). (reloc_addr bin r, reach bound r)) rs

module _ (libc : Libc) (bins : List ElfBinary) (bin : ElfBinary) where
  relocate_relas-append :
      (xs ys : List Elf64Rela) (m m' : Mem)
      → relocate_relas libc bins bin (xs ++ ys) m ≡ ok m'
      → (m1 : Mem) × (relocate_relas libc bins bin xs m ≡ ok m1)
        × (relocate_relas libc bins bin ys m1 ≡ ok m')
  unfolding relocate_relas
  relocate_relas-append [] ys m m' h = (m, refl, h)
  relocate_relas-append (x ∷ xs) ys m m' h =
      let (m1, first, rest) = >>=-eq-ok (relocate_rela libc bins bin x m) _ h in
      let (m2, mid, last) = relocate_relas-append xs ys m1 m' rest in (m2, rw first mid, last)

  All-areas :
      (bound x : ℕ) (rs : List Elf64Rela)
      → Spared (areas bin bound rs) x
      → All (λ r. Outside (reloc_addr bin r) (reach bound r) x) rs
  All-areas bound x [] h = tt
  All-areas bound x (r ∷ rs) h = (h.0, All-areas bound x rs h.1)

  resolve-Agree :
      (m g : Mem) (name : Str)
      → Agree m g bins
      → resolve libc m bins name ≡ resolve libc g bins name
  unfolding resolve
  resolve-Agree m g name agree = elim (Option-cases (libc.libc_map name)) [
    | inl e ↦ rw (e, resolve) (ap (found_addr bins) (search_sym-Agree m g name bins false agree))
    | inr (a, e) ↦ rw (e, resolve)
  ]

  module _ (bound : ℕ) (word : 8 ≤ bound) (sizes : MaxSize bound bins) where
    pub relocate_relas-DiffersAt :
        (rs : List Elf64Rela) (m m' : Mem)
        → relocate_relas libc bins bin rs m ≡ ok m'
        → DiffersAt (areas bin bound rs) m m'
    relocate_relas-DiffersAt rs m m' h x o =
        relocate_relas-Reach libc bins bound word sizes bin rs m m' x h (All-areas bound x rs o)

    Misses-Outside :
        (slot x : ℕ) (rs : List Elf64Rela)
        → slot ≤ x
        → x < slot + 8
        → All (Misses bin bound slot) rs
        → All (λ r. Outside (reloc_addr bin r) (reach bound r) x) rs
    Misses-Outside slot x [] lo hi h = tt
    Misses-Outside slot x (r ∷ rs) lo hi h = (omega arith, Misses-Outside slot x rs lo hi h.1)

    -- Later relocations elsewhere keep a slot's word.
    pub later_keeps :
        (slot : ℕ) (rs : List Elf64Rela) (m m' : Mem)
        → relocate_relas libc bins bin rs m ≡ ok m'
        → All (Misses bin bound slot) rs
        → read64 m' slot ≡ read64 m slot
    later_keeps slot rs m m' h misses = read64_ext m' m slot λ x lo hi.
        relocate_relas-Reach libc bins bound word sizes bin rs m m' x h
          (Misses-Outside slot x rs lo hi misses)

    apply_case-relative :
        (r : Elf64Rela) (name : Str) (m : Mem)
        → (r_type r ≡ relative) ⊎ (r_type r ≡ irelative)
        → apply_case libc bins bin r name m (case_of (r_type r))
          ≡ ok (write64 m (reloc_addr bin r) (add64 bin.base_addr r.r_addend))
    unfolding apply_case case_of
    apply_case-relative r name m (inl type) = rw type refl
    apply_case-relative r name m (inr type) = rw type refl

    -- After the relocations of a binary have run, the slot of an R_X86_64_RELATIVE or
    -- R_X86_64_IRELATIVE entry that no later entry reaches holds base + addend. An entry is taken to
    -- reach eight bytes, and one of type R_X86_64_COPY `bound` bytes, where `bound` is 8 and the size
    -- of every symbol at least.
    pub relative_value :
        (xs ys : List Elf64Rela) (r : Elf64Rela) (m m' : Mem)
        → relocate_relas libc bins bin (xs ++ r ∷ ys) m ≡ ok m'
        → (r_type r ≡ relative) ⊎ (r_type r ≡ irelative)
        → All (Misses bin bound (reloc_addr bin r)) ys
        → read64 m' (reloc_addr bin r) ≡ add64 bin.base_addr r.r_addend
    unfolding relocate_relas relocate_rela
    relative_value xs ys r m m' h type misses =
        let (m1, before, rest) = relocate_relas-append xs (r ∷ ys) m m' h in
        let (m2, step, after) = >>=-eq-ok (relocate_rela libc bins bin r m1) _ rest in
        let (s, found, e) = >>=-eq-ok (at_index bin.symtabs (r_sym r)) _ step in
        let written = sym (apply_case-relative r (sym_name m1 bin s) m1 type) ∙ e in
        later_keeps (reloc_addr bin r) ys m2 m' after misses
        ∙ (ap (λ (g : Mem). read64 g (reloc_addr bin r)) (sym (ok-injective written))
            ∙ read64-write64 m1 (reloc_addr bin r) (add64 bin.base_addr r.r_addend) (omega arith))

    apply_symbol_value :
        (slot addend addr : ℕ) (name : Str) (m m' : Mem)
        → apply_symbol libc bins slot addend name m ≡ ok m'
        → resolve libc m bins name ≡ ok (some addr)
        → read64 m' slot ≡ add64 addr addend
    unfolding apply_symbol write_resolved
    apply_symbol_value slot addend addr name m m' h found =
        ap (λ (g : Mem). read64 g slot) (sym (ok-injective (rw found at h)))
        ∙ read64-write64 m slot (add64 addr addend) (omega arith)

    -- The types of relocations that store a symbol's address, with what they add to it.
    abbrev pub StoresSymbol : Elf64Rela → ℕ → Type 0
    StoresSymbol r addend =
        (((r_type r ≡ glob_dat) ⊎ (r_type r ≡ jump_slot)) × (addend ≡ 0))
        ⊎ ((r_type r ≡ r64) × (addend ≡ r.r_addend))

    apply_case_symbol :
        (r : Elf64Rela) (addend : ℕ) (name : Str) (m : Mem)
        → StoresSymbol r addend
        → apply_case libc bins bin r name m (case_of (r_type r))
          ≡ apply_symbol libc bins (reloc_addr bin r) addend name m
    unfolding apply_case case_of
    apply_case_symbol r addend name m (inl (inl type, z)) = rw type (rw z)
    apply_case_symbol r addend name m (inl (inr type, z)) = rw type (rw z)
    apply_case_symbol r addend name m (inr (type, z)) = rw type (rw z)

    -- The step of one entry, on the way through the relocations of a binary.
    pub record EntryStep (xs ys : List Elf64Rela) (r : Elf64Rela) (m m' : Mem) (s : Elf64Sym)
        : Type 0 where
      pub before : Mem
      pub after : Mem
      pub reached : relocate_relas libc bins bin xs m ≡ ok before
      pub applied :
          apply_case libc bins bin r (sym_name m bin s) before (case_of (r_type r)) ≡ ok after
      pub rest : relocate_relas libc bins bin ys after ≡ ok m'
      pub agree : Agree m before bins

    -- If the earlier entries do not write into the symbols' names, an entry's symbol still has its name
    -- when the entry's turn comes.
    pub entry_step :
        (xs ys : List Elf64Rela) (r : Elf64Rela) (m m' : Mem) (i : ℕ) (s : Elf64Sym)
        → relocate_relas libc bins bin (xs ++ r ∷ ys) m ≡ ok m'
        → get_elem? bins i ≡ some bin
        → get_elem? bin.symtabs (r_sym r) ≡ some s
        → NamesClear m (areas bin bound xs) bins
        → EntryStep xs ys r m m' s
    unfolding relocate_relas relocate_rela
    entry_step xs ys r m m' i s h among at clear =
        let (m1, before, rest) = relocate_relas-append xs (r ∷ ys) m m' h in
        let (m2, step, after) = >>=-eq-ok (relocate_rela libc bins bin r m1) _ rest in
        let (s', found', e) = >>=-eq-ok (at_index bin.symtabs (r_sym r)) _ step in
        let same : s' ≡ s =
          some-injective _ _ (sym (at_index-eq-ok bin.symtabs (r_sym r) found') ∙ at) in
        let agree : Agree m m1 bins =
          NamesClear-Agree m m1 (areas bin bound xs) (relocate_relas-DiffersAt xs m m1 before) bins
            clear in
        let name : sym_name m bin s ≡ sym_name m1 bin s' =
          All-get_elem? (λ (t : Elf64Sym). sym_name m bin t ≡ sym_name m1 bin t) bin.symtabs
            (r_sym r)
            (All-get_elem?
              (λ (b : ElfBinary). All (λ t. sym_name m b t ≡ sym_name m1 b t) b.symtabs) bins i
              agree among)
            at
          ∙ ap (sym_name m1 bin) (sym same) in
        record {
          before = m1;
          reached = before;
          after = m2;
          applied = ap (λ (n : Str). apply_case libc bins bin r n m1 (case_of (r_type r))) name ∙ e;
          rest = after;
          agree = agree;
        }

    -- After the relocations of a binary have run, the slot of an R_X86_64_GLOB_DAT, R_X86_64_JUMP_SLOT
    -- or R_X86_64_64 entry that no later entry reaches holds the address that the symbol's name
    -- resolved to before they ran, plus the addend for R_X86_64_64, if no earlier entry reaches the
    -- names of the symbols, which are terminated strings. An entry is taken to reach eight bytes, and
    -- one of type R_X86_64_COPY `bound` bytes, where `bound` is 8 and the size of every symbol at least.
    pub symbol_value :
        (xs ys : List Elf64Rela) (r : Elf64Rela) (m m' : Mem) (i : ℕ) (s : Elf64Sym)
        (addend addr : ℕ)
        → relocate_relas libc bins bin (xs ++ r ∷ ys) m ≡ ok m'
        → StoresSymbol r addend
        → get_elem? bins i ≡ some bin
        → get_elem? bin.symtabs (r_sym r) ≡ some s
        → resolve libc m bins (sym_name m bin s) ≡ ok (some addr)
        → NamesClear m (areas bin bound xs) bins
        → All (Misses bin bound (reloc_addr bin r)) ys
        → read64 m' (reloc_addr bin r) ≡ add64 addr addend
    symbol_value xs ys r m m' i s addend addr h kind among at found clear apart =
        let name : Str = sym_name m bin s in
        let t = entry_step xs ys r m m' i s h among at clear in
        later_keeps (reloc_addr bin r) ys t.after m' t.rest apart
        ∙ apply_symbol_value (reloc_addr bin r) addend addr name t.before t.after
            (sym (apply_case_symbol r addend name t.before kind) ∙ t.applied)
            (sym (resolve-Agree m t.before name t.agree) ∙ found)
