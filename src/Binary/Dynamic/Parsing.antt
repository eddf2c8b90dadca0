-- ===== src/Binary/Dynamic/Parsing.antt =====
-- What ParseDynamic makes of the dynamic table as a whole.
use sloader.Base.{
  ℕ, ◌+◌, ◌/◌, ◌%◌, ◌≡◌, ◌∙◌, sym, ap, subst, refl, true, false, not, ◌||◌, some, List, [], ◌∷◌,
  ◌++◌, map, ◌==◌, if◌then◌else◌, arith, Bool-cases, inl, inr,
}
use sloader.Base.Words.{add64}
use sloader.Result.{ok, >>=-eq-ok, check-eq-ok}
use sloader.Memory.{Mem, c_str}
use sloader.Elf.{Elf64Dyn, Elf64Sym, ehdr_type_exec}
use sloader.Elf.Tags.{dt_needed, dt_strtab, dt_strsz, dt_rpath, dt_runpath}
use sloader.Binary.{ElfBinary}
use sloader.Binary.Dynamic.{
  dyn_string, dyn_strings, dyn_entries, dyn_size, read_dyns, parse_relas, parse_pltrelas,
  parse_entries, parse_dynamic,
}
use sloader.Binary.Dynamic.Entries.{Numbers, last_of, values_of, Entries, dyn_entries-Entries}
use sloader.Binary.Dynamic.Tables.{
  table_at, SymbolTable, parse_relas-table, parse_pltrelas-table, parse_symbols-SymbolTable,
}

other_tag : (tag : ℕ) → (tag == dt_strtab) ≡ true → (tag == dt_strsz) ≡ false
other_tag tag h = ground (arith, h)

dyn_string-members :
    (dyn : Elf64Dyn) (b : ElfBinary)
    → dyn_string dyn b ≡ record b {
      strtab = if dyn.d_tag == dt_strtab then add64 dyn.d_val b.base_addr else b.strtab;
      strsz = if dyn.d_tag == dt_strsz then dyn.d_val else b.strsz;
    }
unfolding dyn_string
dyn_string-members dyn b = elim (Bool-cases (dyn.d_tag == dt_strtab)) [
  | inl e ↦ rw (e, other_tag dyn.d_tag e) refl
  | inr e ↦ elim (Bool-cases (dyn.d_tag == dt_strsz)) [
    | inl f ↦ rw (e, f) refl
    | inr f ↦ rw (e, f) refl
  ]
]

dyn_strings-last :
    (dyns : List Elf64Dyn) (b : ElfBinary)
    → dyn_strings dyns b ≡ record b {
      strtab = last_of dt_strtab (λ v. add64 v b.base_addr) b.strtab dyns;
      strsz = last_of dt_strsz (λ v. v) b.strsz dyns;
    }
unfolding dyn_strings last_of
dyn_strings-last [] b = refl
dyn_strings-last (dyn ∷ rest) b =
    ap (dyn_strings rest) (dyn_string-members dyn b) ∙ dyn_strings-last rest _

-- The dynamic table of a binary, in memory.
unfoldable pub dynamic_table : Mem → ElfBinary → List Elf64Dyn
dynamic_table m b =
    read_dyns m (b.file_dynamic.p_filesz / dyn_size) (add64 b.base_addr b.file_dynamic.p_vaddr)

-- What ParseDynamic makes of the entries `dyns`.
pub record Parsed (m : Mem) (dyns : List Elf64Dyn) (b b' : ElfBinary) : Type 0 where
  pub strtab : b'.strtab ≡ last_of dt_strtab (λ v. add64 v b.base_addr) b.strtab dyns
  pub strsz : b'.strsz ≡ last_of dt_strsz (λ v. v) b.strsz dyns
  pub neededs :
      b'.neededs ≡ b.neededs ++ map (λ v. c_str m (b'.strtab + v)) (values_of dt_needed dyns)
  pub runpath : b'.runpath ≡ last_of dt_runpath (λ v. some (c_str m (b'.strtab + v))) b.runpath dyns
  pub rpath : b'.rpath ≡ last_of dt_rpath (λ v. some (c_str m (b'.strtab + v))) b.rpath dyns
  pub numbers : Numbers dyns b b'
  pub relas : b'.relas ≡ b.relas ++ table_at m b'.rela b'.relasz b'.relaent
  pub pltrelas : b'.pltrelas ≡ b.pltrelas ++ table_at m b'.jmprel b'.pltrelsz b'.pltrelent
  pub symtabs :
      (syms : List Elf64Sym) × (b'.symtabs ≡ b.symtabs ++ syms)
      × SymbolTable m b'.strsz b'.symtab syms

-- The members that the second pass starts with.
abbrev strings_at : List Elf64Dyn → ElfBinary → ElfBinary
strings_at dyns b = record b {
  strtab = last_of dt_strtab (λ v. add64 v b.base_addr) b.strtab dyns;
  strsz = last_of dt_strsz (λ v. v) b.strsz dyns;
}

-- The binary `b2` of the second pass, with its tables.
abbrev with_relas : Mem → ElfBinary → ElfBinary
with_relas m b2 = record b2 { relas = b2.relas ++ table_at m b2.rela b2.relasz b2.relaent }

abbrev with_pltrelas : Mem → ElfBinary → ElfBinary
with_pltrelas m b3 = record b3 {
  pltrelas = b3.pltrelas ++ table_at m b3.jmprel b3.pltrelsz b3.pltrelent;
}

abbrev with_symbols : List Elf64Sym → ElfBinary → ElfBinary
with_symbols syms b4 = record b4 { symtabs = b4.symtabs ++ syms }

tables-Parsed :
    (m : Mem) (dyns : List Elf64Dyn) (b b2 : ElfBinary) (syms : List Elf64Sym)
    → Entries m dyns (strings_at dyns b) b2
    → SymbolTable m b2.strsz b2.symtab syms
    → Parsed m dyns b (with_symbols syms (with_pltrelas m (with_relas m b2)))
tables-Parsed m dyns b b2 syms r table =
    let n = r.numbers in
    record {
      strtab = r.strtab;
      strsz = r.strsz;
      neededs = rw r.strtab r.neededs;
      runpath = rw r.strtab r.runpath;
      rpath = rw r.strtab r.rpath;
      numbers = record {
        rela = n.rela;
        relasz = n.relasz;
        relaent = n.relaent;
        relacount = n.relacount;
        jmprel = n.jmprel;
        pltrelsz = n.pltrelsz;
        pltrel = n.pltrel;
        pltrelent = n.pltrelent;
        symtab = n.symtab;
        syment = n.syment;
        init = n.init;
        fini = n.fini;
        init_array = n.init_array;
        init_arraysz = n.init_arraysz;
        fini_array = n.fini_array;
        fini_arraysz = n.fini_arraysz;
      };
      relas = rw r.relas refl;
      pltrelas = rw r.pltrelas refl;
      symtabs = (syms, rw r.symtabs refl, table);
    }

parse_entries-Parsed :
    (m : Mem) (dyns : List Elf64Dyn) (b b' : ElfBinary)
    → parse_entries m dyns (strings_at dyns b) ≡ ok b'
    → Parsed m dyns b b'
unfolding parse_entries
parse_entries-Parsed m dyns b b' h =
    let (b2, run2, h2) = >>=-eq-ok (dyn_entries m dyns (strings_at dyns b)) _ h in
    let (b3, run3, h3) = >>=-eq-ok (parse_relas m b2) _ h2 in
    let (b4, run4, h4) = >>=-eq-ok (parse_pltrelas m b3) _ h3 in
    let (syms, last, table) = parse_symbols-SymbolTable m b4 b' h4 in
    let e : b4 ≡ with_pltrelas m (with_relas m b2) =
      parse_pltrelas-table m b3 b4 run4 ∙ ap (with_pltrelas m) (parse_relas-table m b2 b3 run3) in
    subst (Parsed m dyns b) (sym last) (
      subst
        (λ (c : ElfBinary).
          SymbolTable m c.strsz c.symtab syms → Parsed m dyns b (with_symbols syms c))
        (sym e)
        (tables-Parsed m dyns b b2 syms (dyn_entries-Entries m dyns (strings_at dyns b) b2 run2))
        table)

-- If ParseDynamic returns, the names that are needed are the strings of the DT_NEEDED entries, in
-- order; every other member is taken from the last entry of its tag; the relocations are the entries
-- of the two tables, as many as the sizes say; and the symbols are those of the symbol table up to the
-- first one, after the first entry, whose name is not in the string table.
pub parse_dynamic-Parsed :
    (m : Mem) (b b' : ElfBinary) → parse_dynamic m b ≡ ok b' → Parsed m (dynamic_table m b) b b'
unfolding parse_dynamic dynamic_table
parse_dynamic-Parsed m b b' h =
    let dyns = dynamic_table m b in
    let (based, h1) = check-eq-ok (not (b.base_addr == 0) || b.ehdr.e_type == ehdr_type_exec) _ h in
    let (whole, h2) = check-eq-ok (b.file_dynamic.p_filesz % dyn_size == 0) _ h1 in
    let strings = dyn_strings dyns b in
    let (found, h3) =
      check-eq-ok (not (strings.strtab == 0) || strings.ehdr.e_type == ehdr_type_exec) _ h2 in
    parse_entries-Parsed m dyns b b'
      (ap (parse_entries m dyns) (sym (dyn_strings-last dyns b)) ∙ h3)
