-- ===== src/Loader/Relocate.antt =====
-- DynLoader::Relocate.
pub mod Frame
pub mod Stuck
pub mod Outcomes
pub mod Failures
pub mod Values
pub mod ThreadSlots
pub mod Copies
pub mod Once
pub mod Resolve
use sloader.Base.{
  ℕ, ◌+◌, ◌||◌, Bool, true, false, Option, none, some, List, [], ◌∷◌, ◌++◌, ◌==◌, if◌then◌else◌,
  get_elem?, Str, elem,
}
use sloader.Base.Words.{add64}
use sloader.Result.{Result, ok, err, check_failed, aborted, ◌>>=◌}
use sloader.Memory.{Mem, write64, memcpy}
use sloader.Elf.{Elf64Rela, Elf64Sym, r_sym, r_type}
use sloader.Elf.Relocs.{
  r64, copy, glob_dat, jump_slot, relative, dtpmod64, dtpoff64, tpoff64, irelative,
}
use sloader.Binary.{ElfBinary, get_symbol_addr}
use sloader.Loader.{DynLoader}
use sloader.Loader.Symbols.{sym_name, search_sym, TlsSpace, tls_sym_offset}

-- `sloader_libc_map`, and the thread's space.
pub record Libc : Type 0 where
  pub libc_map : Str → Option ℕ
  pub space : TlsSpace

-- An index into a vector.
unfoldable pub at_index {ℓ} : {A : Type ℓ} → List A → ℕ → Result A
at_index xs i = elim (get_elem? xs i) [ some x ↦ ok x | none ↦ err check_failed ]

-- The address of the symbol that SearchSym found.
unfoldable pub found_addr : List ElfBinary → Option (ℕ × ℕ) → Result (Option ℕ)
unfolding at_index
found_addr bins none = ok none
found_addr bins (some (i, j)) = do b ← at_index bins i; addr ← get_symbol_addr b j; ok (some addr)

-- The address that a name stands for: libc's own functions come first.
unfoldable pub resolve : Libc → Mem → List ElfBinary → Str → Result (Option ℕ)
unfolding found_addr
resolve libc m bins name = elim (libc.libc_map name) [
  | some addr ↦ ok (some addr)
  | none ↦ found_addr bins (search_sym m bins name false)
]

abbrev pub reloc_addr : ElfBinary → Elf64Rela → ℕ
reloc_addr bin r = add64 bin.base_addr r.r_offset

-- A name that is not found leaves the slot as it is.
unfoldable pub write_resolved : Mem → ℕ → ℕ → Option ℕ → Mem
unfolding write64
write_resolved m slot addend none = m
write_resolved m slot addend (some addr) = write64 m slot (add64 addr addend)

-- R_X86_64_GLOB_DAT, R_X86_64_JUMP_SLOT (addend 0) and R_X86_64_64
unfoldable pub apply_symbol : Libc → List ElfBinary → ℕ → ℕ → Str → Mem → Result Mem
unfolding write_resolved
apply_symbol libc bins slot addend name m = do
  addr ← resolve libc m bins name
  ok (write_resolved m slot addend addr)

-- What R_X86_64_COPY copies: the address and the size.
unfoldable pub copy_source : Libc → Mem → List ElfBinary → Str → Result (ℕ × ℕ)
unfolding at_index
copy_source libc m bins name = elim (libc.libc_map name) [
  | some addr ↦ ok (addr, 8)
  | none ↦ elim (search_sym m bins name true) [
    | none ↦ err aborted
    | some (i, j) ↦ do
      b ← at_index bins i
      sym ← at_index b.symtabs j
      ok (add64 b.base_addr sym.st_value, sym.st_size)
  ]
]

unfoldable pub apply_copy : Libc → List ElfBinary → ℕ → Str → Mem → Result Mem
apply_copy libc bins dest name m = do
  (src, size) ← copy_source libc m bins name
  ok (memcpy m dest src size)

unfoldable pub apply_tpoff : Libc → List ElfBinary → ℕ → Str → Mem → Result Mem
apply_tpoff libc bins slot name m = do
  offset ← tls_sym_offset libc.space m bins name
  ok (write64 m slot offset)

-- The groups of `case` labels of the `switch` over the relocation type.
pub data Case : Type 0 where
  symbol_address : Case
  base_relative : Case
  symbol_plus_addend : Case
  thread_offset : Case
  module_number : Case
  no_action : Case
  copied : Case
  unsupported : Case

unfoldable pub case_of : ℕ → Case
case_of type =
    if type == glob_dat || type == jump_slot
    then symbol_address
    else (if type == irelative || type == relative
        then base_relative
        else (if type == r64
            then symbol_plus_addend
            else (if type == tpoff64
                then thread_offset
                else (if type == dtpmod64
                    then module_number
                    else (if type == dtpoff64
                        then no_action
                        else (if type == copy then copied else unsupported))))))

unfoldable pub apply_case :
    Libc → List ElfBinary → ElfBinary → Elf64Rela → Str → Mem → Case → Result Mem
unfolding apply_symbol apply_copy apply_tpoff
apply_case libc bins bin r name m symbol_address =
    apply_symbol libc bins (reloc_addr bin r) 0 name m
apply_case libc bins bin r name m base_relative =
    ok (write64 m (reloc_addr bin r) (add64 bin.base_addr r.r_addend))
apply_case libc bins bin r name m symbol_plus_addend =
    apply_symbol libc bins (reloc_addr bin r) r.r_addend name m
apply_case libc bins bin r name m thread_offset = apply_tpoff libc bins (reloc_addr bin r) name m
apply_case libc bins bin r name m module_number = ok (write64 m (reloc_addr bin r) 1)
apply_case libc bins bin r name m no_action = ok m
apply_case libc bins bin r name m copied = apply_copy libc bins (reloc_addr bin r) name m
apply_case libc bins bin r name m unsupported = err aborted

-- One relocation: its symbol must be in the table.
unfoldable pub relocate_rela : Libc → List ElfBinary → ElfBinary → Elf64Rela → Mem → Result Mem
unfolding at_index case_of apply_case
relocate_rela libc bins bin r m = do
  s ← at_index bin.symtabs (r_sym r)
  apply_case libc bins bin r (sym_name m bin s) m (case_of (r_type r))

unfoldable pub relocate_relas :
    Libc → List ElfBinary → ElfBinary → List Elf64Rela → Mem → Result Mem
unfolding relocate_rela
relocate_relas libc bins bin [] m = ok m
relocate_relas libc bins bin (r ∷ rs) m = do
  m' ← relocate_rela libc bins bin r m
  relocate_relas libc bins bin rs m'

-- The loop over the binaries, which `todo` runs through: the paths in `relocated_`, and the memory.
unfoldable pub relocate_binaries :
    Libc → List ElfBinary → List ElfBinary → List Str → Mem → Result (List Str × Mem)
unfolding relocate_relas
relocate_binaries libc bins [] relocated m = ok (relocated, m)
relocate_binaries libc bins (bin ∷ todo) relocated m =
    let skip = relocate_binaries libc bins todo relocated m in
    let run : Result (List Str × Mem) = (do
      m' ← relocate_relas libc bins bin (bin.pltrelas ++ bin.relas) m
      relocate_binaries libc bins todo (bin.path ∷ relocated) m') in
    if elem bin.path relocated then skip else run

-- `DynLoader::Relocate`
unfoldable pub relocate : Libc → DynLoader → Mem → Result (DynLoader × Mem)
unfolding relocate_binaries
relocate libc l m = do
  (relocated, m') ← relocate_binaries libc l.binaries l.binaries l.relocated m
  ok (record l { relocated = relocated }, m')
