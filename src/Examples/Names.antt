-- ===== src/Examples/Names.antt =====
-- Examples for names: the table of libc, dlsym, the slot of a thread-local variable, and configuration
-- files.
use sloader.Base.{
  ◌+◌, ◌-◌, ◌≡◌, refl, true, some, List, [], ◌∷◌, ◌++◌, codes, All, arith, contains, Str, str_eq,
  if◌then◌else◌,
}
use sloader.Base.Words.{add64}
use sloader.Result.{ok}
use sloader.System.{System}
use sloader.Memory.{Mem, read64, cstring}
use sloader.Elf.{Elf64Phdr, Elf64Rela, Elf64Sym}
use sloader.Binary.{ElfBinary, members}
use sloader.Library.{is_space, include_all, read_ldsoconf_dfs}
use sloader.Library.Grammar.{
  Line, comment, directory, render, WellFormed, is_comment, is_directory, read_lines,
  read_ldsoconf_dfs-lines,
}
use sloader.Loader.Symbols.{sym_name, first_tls, tls_sym_offset}
use sloader.Loader.Relocate.{relocate_relas, reloc_addr, case_of}
use sloader.Loader.Relocate.ThreadSlots.{thread_slot-address}
use sloader.Execute.Tls.{tls_space}
use sloader.Execute.Tls.Image.{tls_total}
use sloader.Dl.{sloader_dlsym}
use sloader.Dl.Names.{Address, sloader_dlsym-Address}
use sloader.LibcMapping.{address_of}
use sloader.LibcMapping.Table.{lookup, place, sloader_libc_map}
use sloader.LibcMapping.Calls.{call_of}
use sloader.LibcMapping.Meaning.{meaning, sloader_libc_map-meaning}
use sloader.Examples.{one_object, bytes_at, object_bytes, value_or, is_ok, value_or-eq}
use sloader.Examples.Loaders.{libc, names, f_loader}

basename_entry : lookup sloader_libc_map (codes "basename") ≡ some (address_of "basename")
unfolding lookup sloader_libc_map
basename_entry = refl

-- <libgen.h> makes `basename` a macro for `__xpg_basename`.
abbrev libgen : Str → Str
libgen name = if str_eq name (codes "basename") then codes "__xpg_basename" else name

sloader_libc_map-meaning_example :
    call_of libgen (place (address_of "basename")) ≡ meaning libgen (codes "basename")
sloader_libc_map-meaning_example =
    sloader_libc_map-meaning libgen (codes "basename") (address_of "basename") basename_entry

sloader_dlsym-Address_example :
    Address names (codes "f") (some f_loader) (sloader_dlsym names (codes "f") (some f_loader))
sloader_dlsym-Address_example = sloader_dlsym-Address names (codes "f") (some f_loader)

-- A library with a variable "v" of 8 bytes in its thread-local block, and a slot for it.
abbrev block_header : Elf64Phdr
block_header = record {
  p_type = 7;
  p_flags = 4;
  p_offset = 0;
  p_vaddr = 512;
  p_filesz = 8;
  p_memsz = 16;
}

abbrev v_symbol : Elf64Sym
v_symbol = record {
  st_name = 1;
  st_info = 22;
  st_other = 0;
  st_shndx = 9;
  st_value = 8;
  st_size = 8;
}

abbrev v_slot : Elf64Rela
v_slot = record { r_offset = 256; r_info = 18; r_addend = 0 }

abbrev v_library : ElfBinary
unfolding members
v_library = record (members one_object (codes "/lib/v.so") object_bytes) {
  base_addr = 0x100000;
  has_tls = true;
  file_tls = block_header;
  strtab = 100;
  symtabs = v_symbol ∷ [];
}

abbrev v_names : Mem
v_names = bytes_at ((101, b'v') ∷ [])

abbrev v_bins : List ElfBinary
unfolding v_library
v_bins = [] ++ v_library ∷ []

abbrev v_after : Mem
unfolding relocate_relas
v_after = value_or v_names (relocate_relas libc v_bins v_library ([] ++ v_slot ∷ []) v_names)

v_run : relocate_relas libc v_bins v_library ([] ++ v_slot ∷ []) v_names ≡ ok v_after
unfolding v_after relocate_relas v_bins v_library first_tls tls_sym_offset cstring
v_run = value_or-eq v_names _ ok_run
  where
    ok_run : is_ok (relocate_relas libc v_bins v_library ([] ++ v_slot ∷ []) v_names) ≡ true
    ok_run = refl

v_found : first_tls v_names (sym_name v_names v_library v_symbol) v_library (v_symbol ∷ []) ≡ some 8
unfolding first_tls v_library cstring
v_found = refl

thread_slot-address_example :
    add64 (65536 + tls_space) (read64 v_after (reloc_addr v_library v_slot))
    ≡ 65536 + tls_space - tls_total [] - v_library.file_tls.p_memsz + 8
unfolding v_library tls_total case_of v_bins
thread_slot-address_example =
    thread_slot-address libc v_library 8 [] v_library [] [] [] v_slot v_names v_after 0 v_symbol 8
      (omega arith) ((omega arith, tt), tt) v_run refl refl refl
      (
        (
          record {
            text = codes "v";
            holds = (refl, (λ e. cc e), refl);
            short = omega arith;
            clear = tt;
          },
          tt,
        ),
        tt,
      )
      tt (omega arith) tt v_found (omega arith) (omega arith)

-- A comment and a directory.
abbrev two_lines : List Line
two_lines = comment (codes " local") ∷ directory (codes "/opt/lib") ∷ []

two_WellFormed : All WellFormed two_lines
unfolding is_space
two_WellFormed = (
  is_comment (codes " local") (refl, (refl, (refl, (refl, (refl, (refl, tt)))))),
  (
    is_directory (codes "/opt/lib")
        (record {
          first = b'/';
          others = codes "opt/lib";
          split = refl;
          no_space = (refl, (refl, (refl, (refl, (refl, (refl, (refl, (refl, tt))))))));
        })
        refl refl,
    tt,
  ),
)

abbrev two_conf : System
unfolding render
two_conf = record one_object { read_file = λ path. some (render two_lines) }

read_ldsoconf_dfs-lines_example :
    read_ldsoconf_dfs two_conf 1 [] (codes "/etc/ld.so.conf")
    ≡ read_lines two_conf (include_all (read_ldsoconf_dfs two_conf 0)) [] two_lines
unfolding two_conf contains
read_ldsoconf_dfs-lines_example =
    read_ldsoconf_dfs-lines two_conf 0 [] (codes "/etc/ld.so.conf") two_lines refl refl
      two_WellFormed
