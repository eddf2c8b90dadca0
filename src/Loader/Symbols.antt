-- ===== src/Loader/Symbols.antt =====
-- DynLoader::SearchSym and DynLoader::TLSSymOffset.
pub mod Scan
pub mod First
pub mod Names
use sloader.Base.{
  ℕ, zero, suc, ◌+◌, ◌^◌, Bool, ◌&&◌, not, Option, none, some, List, [], ◌∷◌, ◌==◌, if◌then◌else◌,
  drop, or_else, Str, str_eq,
}
use mathlib.Core.Option
use sloader.Base.Words.{add64, sub64}
use sloader.Result.{Result, ok, err, aborted}
use sloader.Memory.{Mem, c_str}
use sloader.Elf.{Elf64Sym, st_bind, st_type}
use sloader.Elf.Tags.{shn_undef, stb_weak, stt_tls}
use sloader.Binary.{ElfBinary}

-- `s.st_name + strtab()` as a string
unfoldable pub sym_name : Mem → ElfBinary → Elf64Sym → Str
unfolding c_str
sym_name m b s = c_str m (b.strtab + s.st_name)

-- The condition of the first pass.
unfoldable pub is_defined : Mem → Str → ElfBinary → Elf64Sym → Bool
unfolding sym_name
is_defined m name b s = str_eq (sym_name m b s) name && not (s.st_shndx == shn_undef)

-- The condition of the second pass.
unfoldable pub is_weak_undefined : Mem → Str → ElfBinary → Elf64Sym → Bool
unfolding sym_name
is_weak_undefined m name b s =
    str_eq (sym_name m b s) name && (s.st_shndx == shn_undef && st_bind s == stb_weak)

-- The inner loop, from the index `j`.
unfoldable pub first_sym : (Elf64Sym → Bool) → ℕ → List Elf64Sym → Option ℕ
first_sym test j [] = none
first_sym test j (s ∷ rest) = if test s then some j else first_sym test (suc j) rest

-- The outer loop, from the index `i`.
unfoldable pub first_binary : (ElfBinary → Elf64Sym → Bool) → ℕ → List ElfBinary → Option (ℕ × ℕ)
unfolding first_sym
first_binary test i [] = none
first_binary test i (b ∷ rest) =
    or_else (Option.map (λ j. (i, j)) (first_sym (test b) 0 b.symtabs))
      (first_binary test (suc i) rest)

-- `DynLoader::SearchSym`
unfoldable pub search_sym : Mem → List ElfBinary → Str → (skip_main : Bool) → Option (ℕ × ℕ)
unfolding is_defined is_weak_undefined first_binary
search_sym m binaries name skip_main =
    let start : ℕ = if skip_main then 1 else 0 in
    or_else (first_binary (is_defined m name) start (drop start binaries))
      (first_binary (is_weak_undefined m name) start (drop start binaries))

-- The condition of TLSSymOffset.
unfoldable pub is_tls : Mem → Str → ElfBinary → Elf64Sym → Bool
unfolding sym_name
is_tls m name b s =
    str_eq (sym_name m b s) name && (not (s.st_shndx == shn_undef) && st_type s == stt_tls)

-- The inner loop of TLSSymOffset: the value of the first symbol that fits.
unfoldable pub first_tls : Mem → Str → ElfBinary → List Elf64Sym → Option ℕ
unfolding is_tls
first_tls m name b [] = none
first_tls m name b (s ∷ rest) =
    if is_tls m name b s then some s.st_value else first_tls m name b rest

-- The loops of TLSSymOffset. The offset wraps on purpose.
unfoldable pub tls_offset_from : Mem → Str → ℕ → List ElfBinary → Option ℕ
unfolding first_tls
tls_offset_from m name offset [] = none
tls_offset_from m name offset (b ∷ rest) =
    let offset' : ℕ = if b.has_tls then sub64 offset b.file_tls.p_memsz else offset in
    let later = tls_offset_from m name offset' rest in
    or_else
      (Option.map (λ value. add64 (sub64 offset b.file_tls.p_memsz) value)
        (first_tls m name b b.symtabs))
      later

-- Where `tls_block`, the thread's space for loaded code, stands; and libc's own thread variables.
pub record TlsSpace : Type 0 where
  pub block : ℕ
  pub libc_variables : Str → Option ℕ

-- `DynLoader::TLSSymOffset`
unfoldable pub tls_sym_offset : TlsSpace → Mem → List ElfBinary → Str → Result ℕ
unfolding tls_offset_from
tls_sym_offset space m binaries name = elim (tls_offset_from m name 0 binaries) [
  | some offset ↦ ok offset
  | none ↦ elim (space.libc_variables name) [
    | some addr ↦ ok (sub64 (space.block + 4096) addr)
    | none ↦ err aborted
  ]
]
