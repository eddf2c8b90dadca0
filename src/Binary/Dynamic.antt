-- ===== src/Binary/Dynamic.antt =====
-- ELFBinary::ParseDynamic: the dynamic table, the relocations and the symbols, read from the loaded
-- image.
pub mod Layout
pub mod Fields
pub mod Entries
pub mod Tables
pub mod Parsing
use sloader.Base.{
  ℕ, zero, suc, ◌+◌, ◌*◌, ◌/◌, ◌%◌, ◌^◌, Bool, ◌||◌, not, some, List, [], ◌∷◌, ◌++◌, ltb, ◌==◌,
  if◌then◌else◌,
}
use sloader.Base.Words.{add64}
use sloader.Result.{
  Result, ok, err, undefined_behaviour, out_of_fuel, symbol_loop, check, ◌>>=◌, ◌>>◌,
}
use sloader.Memory.{Mem, c_str}
use sloader.Elf.{Elf64Dyn, Elf64Rela, Elf64Sym, read_dyn, read_rela, read_sym, ehdr_type_exec}
use sloader.Elf.Tags.{
  dt_needed, dt_pltrelsz, dt_strtab, dt_symtab, dt_rela, dt_relasz, dt_relaent, dt_strsz, dt_syment,
  dt_init, dt_fini, dt_rpath, dt_rel, dt_pltrel, dt_jmprel, dt_init_array, dt_fini_array,
  dt_init_arraysz, dt_fini_arraysz, dt_runpath, dt_relacount,
}
use sloader.Utils.Show.{show_sym}
use sloader.Binary.{ElfBinary}

-- sizeof(Elf64_Dyn), sizeof(Elf64_Rela), sizeof(Elf64_Rel), sizeof(Elf64_Sym)
abbrev pub dyn_size : ℕ
dyn_size = 16

abbrev pub rela_size : ℕ
rela_size = 24

abbrev pub rel_size : ℕ
rel_size = 16

abbrev pub sym_size : ℕ
sym_size = 24

-- `n` entries from the address `a`
unfoldable pub read_dyns : Mem → ℕ → ℕ → List Elf64Dyn
read_dyns m zero a = []
read_dyns m (suc n) a = read_dyn m a ∷ read_dyns m n (a + dyn_size)

unfoldable pub read_relas : Mem → ℕ → ℕ → List Elf64Rela
read_relas m zero a = []
read_relas m (suc n) a = read_rela m a ∷ read_relas m n (a + rela_size)

-- The first pass: DT_STRTAB and DT_STRSZ.
unfoldable pub dyn_string : Elf64Dyn → ElfBinary → ElfBinary
dyn_string dyn b =
    if dyn.d_tag == dt_strtab
    then record b { strtab = add64 dyn.d_val b.base_addr }
    else (if dyn.d_tag == dt_strsz then record b { strsz = dyn.d_val } else b)

unfoldable pub dyn_strings : List Elf64Dyn → ElfBinary → ElfBinary
unfolding dyn_string
dyn_strings [] b = b
dyn_strings (dyn ∷ rest) b = dyn_strings rest (dyn_string dyn b)

-- DT_PLTREL
unfoldable pub dyn_pltrel : ℕ → ElfBinary → Result ElfBinary
dyn_pltrel v b = do
  check (v == dt_rela || v == dt_rel)
  ok (record b { pltrel = v; pltrelent = if v == dt_rela then rela_size else rel_size })

-- The second half of the tags, which only store a number.
unfoldable pub dyn_number : ℕ → ℕ → ElfBinary → ElfBinary
dyn_number tag v b =
    if tag == dt_init
    then record b { init = v }
    else (if tag == dt_fini
        then record b { fini = v }
        else (if tag == dt_init_array
            then record b { init_array = v }
            else (if tag == dt_init_arraysz
                then record b { init_arraysz = v }
                else (if tag == dt_fini_array
                    then record b { fini_array = v }
                    else (if tag == dt_fini_arraysz then record b { fini_arraysz = v } else b)))))

-- One entry of the second pass, the tests in the order of the code.
unfoldable pub dyn_entry : Mem → Elf64Dyn → ElfBinary → Result ElfBinary
unfolding dyn_pltrel dyn_number c_str
dyn_entry m dyn b =
    let tag : ℕ = dyn.d_tag in
    let v : ℕ = dyn.d_val in
    if tag == dt_needed
    then ok (record b { neededs = b.neededs ++ (c_str m (b.strtab + v) ∷ []) })
    else (if tag == dt_runpath
        then ok (record b { runpath = some (c_str m (b.strtab + v)) })
        else (if tag == dt_rpath
            then ok (record b { rpath = some (c_str m (b.strtab + v)) })
            else (if tag == dt_rela
                then ok (record b { rela = add64 b.base_addr v })
                else (if tag == dt_relasz
                    then ok (record b { relasz = v })
                    else (if tag == dt_relaent
                        then ok (record b { relaent = v })
                        else (if tag == dt_relacount
                            then ok (record b { relacount = v })
                            else (if tag == dt_jmprel
                                then ok (record b { jmprel = add64 b.base_addr v })
                                else (if tag == dt_pltrelsz
                                    then ok (record b { pltrelsz = v })
                                    else (if tag == dt_pltrel
                                        then dyn_pltrel v b
                                        else (if tag == dt_symtab
                                            then ok (record b { symtab = add64 b.base_addr v })
                                            else (if tag == dt_syment
                                                then (check (v == sym_size)
                                                    >> ok (record b { syment = v }))
                                                else ok (dyn_number tag v b))))))))))))

unfoldable pub dyn_entries : Mem → List Elf64Dyn → ElfBinary → Result ElfBinary
unfolding dyn_entry
dyn_entries m [] b = ok b
dyn_entries m (dyn ∷ rest) b = do b' ← dyn_entry m dyn b; dyn_entries m rest b'

-- `CHECK_EQ(size % entry, 0)`, where `entry` may be 0
unfoldable pub entry_count : ℕ → ℕ → Result ℕ
entry_count size entry =
    if entry == 0
    then err undefined_behaviour
    else (do check (size % entry == 0); ok (size / entry))

unfoldable pub parse_relas : Mem → ElfBinary → Result ElfBinary
unfolding entry_count read_relas
parse_relas m b = if b.rela == 0 then ok b else (do
  n ← entry_count b.relasz b.relaent
  ok (record b { relas = b.relas ++ read_relas m n b.rela }))

unfoldable pub parse_pltrelas : Mem → ElfBinary → Result ElfBinary
unfolding entry_count read_relas
parse_pltrelas m b = if b.jmprel == 0 then ok b else (do
  n ← entry_count b.pltrelsz b.pltrelent
  check (b.pltrel == dt_rela)
  ok (record b { pltrelas = b.pltrelas ++ read_relas m n b.jmprel }))

-- The `while` loop over the symbols: it stops at the first name offset outside the string table.
unfoldable pub read_syms : ℕ → Mem → ℕ → ℕ → Result (List Elf64Sym)
read_syms zero m strsz s = err (out_of_fuel symbol_loop)
read_syms (suc fuel) m strsz s =
    let sym : Elf64Sym = read_sym m s in
    let rest : Result (List Elf64Sym) = read_syms fuel m strsz (s + sym_size) in
    if ltb sym.st_name strsz then (do syms ← rest; ok (sym ∷ syms)) else ok []

-- The log statement formats every symbol, and so aborts at a symbol type that it does not know.
unfoldable pub log_syms : Mem → ℕ → List Elf64Sym → Result (Unit {0})
log_syms m strtab [] = ok tt
log_syms m strtab (s ∷ rest) = do _ ← show_sym m s strtab; log_syms m strtab rest

-- More fuel than there are addresses.
abbrev pub symbol_fuel : ℕ
symbol_fuel = 2 ^ 64

unfoldable pub parse_symbols : Mem → ElfBinary → Result ElfBinary
unfolding read_syms log_syms
parse_symbols m b = if b.symtab == 0 then ok b else (do
  more ← read_syms symbol_fuel m b.strsz (b.symtab + sym_size)
  let syms = b.symtabs ++ (read_sym m b.symtab ∷ more)
  log_syms m b.strtab syms
  ok (record b { symtabs = syms }))

-- The second pass and what follows it.
unfoldable pub parse_entries : Mem → List Elf64Dyn → ElfBinary → Result ElfBinary
unfolding dyn_entries parse_relas parse_pltrelas parse_symbols
parse_entries m dyns b1 = do
  b2 ← dyn_entries m dyns b1
  b3 ← parse_relas m b2
  b4 ← parse_pltrelas m b3
  parse_symbols m b4

-- `ELFBinary::ParseDynamic`
unfoldable pub parse_dynamic : Mem → ElfBinary → Result ElfBinary
unfolding read_dyns dyn_strings parse_entries
parse_dynamic m b = do
  check (not (b.base_addr == 0) || b.ehdr.e_type == ehdr_type_exec)
  check (b.file_dynamic.p_filesz % dyn_size == 0)
  let n = b.file_dynamic.p_filesz / dyn_size
  let dyns = read_dyns m n (add64 b.base_addr b.file_dynamic.p_vaddr)
  let b1 = dyn_strings dyns b
  check (not (b1.strtab == 0) || b1.ehdr.e_type == ehdr_type_exec)
  parse_entries m dyns b1
