-- ===== src/Binary.antt =====
-- The class ELFBinary of dyn_loader.h and dyn_loader.cc: its members, and its constructor.
pub mod Headers
pub mod Load
pub mod Dynamic
pub mod Segments
use sloader.Base.{
  ℕ, zero, suc, ◌+◌, ◌*◌, ◌%◌, ◌^◌, Bool, true, false, Option, none, some, List, [], ◌∷◌, ◌++◌, ltb,
  leb, ◌==◌, if◌then◌else◌, Str, get_elem?,
}
use sloader.Base.Words.{add64}
use sloader.Result.{Result, ok, err, check_failed, check, ◌>>=◌, ◌>>◌}
use sloader.System.{System, File}
use sloader.Memory.{Mem}
use sloader.Elf.{Elf64Ehdr, Elf64Phdr, Elf64Rela, Elf64Sym, read_ehdr, read_phdr}
use sloader.Elf.Tags.{pt_dynamic, pt_tls}

-- A pointer is its address, and the null pointer is 0; `file` is what `file_base_addr_` points at.
pub record ElfBinary : Type 0 where
  pub path : Str
  pub file : Mem
  pub base_addr : ℕ
  pub end_addr : ℕ
  pub ehdr : Elf64Ehdr
  pub rela : ℕ
  pub jmprel : ℕ
  pub relas : List Elf64Rela
  pub pltrelas : List Elf64Rela
  pub relasz : ℕ
  pub relacount : ℕ
  pub relaent : ℕ
  pub pltrelsz : ℕ
  pub pltrel : ℕ
  pub pltrelent : ℕ
  pub init : ℕ
  pub fini : ℕ
  pub init_arraysz : ℕ
  pub init_array : ℕ
  pub fini_arraysz : ℕ
  pub fini_array : ℕ
  pub symtab : ℕ
  pub symtabs : List Elf64Sym
  pub syment : ℕ
  pub file_phdrs : List Elf64Phdr
  pub file_dynamic : Elf64Phdr
  pub has_tls : Bool
  pub file_tls : Elf64Phdr
  pub neededs : List Str
  pub runpath : Option Str
  pub rpath : Option Str
  pub strtab : ℕ
  pub strsz : ℕ

abbrev no_phdr : Elf64Phdr
no_phdr = record { p_type = 0; p_flags = 0; p_offset = 0; p_vaddr = 0; p_filesz = 0; p_memsz = 0 }

-- The members before the constructor's body.
unfoldable pub members : System → Str → Mem → ElfBinary
members sys path file = record {
  path = path;
  file = file;
  base_addr = 0;
  end_addr = 0;
  ehdr = read_ehdr file 0;
  rela = 0;
  jmprel = 0;
  relas = [];
  pltrelas = [];
  relasz = 0;
  relacount = 0;
  relaent = 0;
  pltrelsz = 0;
  pltrel = 0;
  pltrelent = 0;
  init = 0;
  fini = 0;
  init_arraysz = 0;
  init_array = 0;
  fini_arraysz = 0;
  fini_array = 0;
  symtab = 0;
  symtabs = [];
  syment = 0;
  file_phdrs = [];
  file_dynamic = no_phdr;
  has_tls = false;
  file_tls = sys.uninitialised;
  neededs = [];
  runpath = none;
  rpath = none;
  strtab = 0;
  strsz = 0;
}

-- One round of the constructor's loop: the last PT_DYNAMIC and the last PT_TLS are kept.
unfoldable pub add_phdr : Elf64Phdr → ElfBinary → ElfBinary
add_phdr ph b =
    let b' : ElfBinary = record b { file_phdrs = b.file_phdrs ++ (ph ∷ []) } in
    if ph.p_type == pt_dynamic
    then record b' { file_dynamic = ph }
    else (if ph.p_type == pt_tls then record b' { has_tls = true; file_tls = ph } else b')

-- `n` rounds from `i`
unfoldable pub read_phdrs : ℕ → ℕ → ElfBinary → ElfBinary
unfolding add_phdr
read_phdrs zero i b = b
read_phdrs (suc n) i b =
    let offset : ℕ = b.ehdr.e_phoff + i * b.ehdr.e_phentsize in
    read_phdrs n (i + 1) (add_phdr (read_phdr b.file offset) b)

-- `ELFBinary::ELFBinary`
unfoldable pub elf_binary : System → Str → Result ElfBinary
unfolding members read_phdrs
elf_binary sys path = elim (sys.open_file path) [
  | none ↦ err check_failed
  | some f ↦ do
    check (ltb (8 + 16) f.size)
    let b = members sys path f.bytes
    ok (read_phdrs b.ehdr.e_phnum 0 b)
]

-- `ELFBinary::GetSymbolAddr`
unfoldable pub get_symbol_addr : ElfBinary → ℕ → Result ℕ
get_symbol_addr b symbol_index = elim (get_elem? b.symtabs symbol_index) [
  | none ↦ err check_failed
  | some s ↦ ok (add64 s.st_value b.base_addr)
]

-- `path_.filename()`: what follows the last slash
unfoldable pub filename_from : Str → Str → Str
filename_from acc [] = acc
filename_from acc (c ∷ s) = filename_from (if c == b'/' then [] else acc ++ (c ∷ [])) s

unfoldable pub filename : Str → Str
unfolding filename_from
filename path = filename_from [] path
