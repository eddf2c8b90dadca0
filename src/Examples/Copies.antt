-- ===== src/Examples/Copies.antt =====
-- An example for copy relocations: an executable that copies eight bytes of a library.
use sloader.Base.{◌+◌, ◌≡◌, refl, true, some, List, [], ◌∷◌, ◌++◌, codes, arith}
use sloader.Result.{ok}
use sloader.Memory.{Mem, cstring}
use sloader.Elf.{Elf64Rela, Elf64Sym}
use sloader.Binary.{ElfBinary, members}
use sloader.Loader.Symbols.{search_sym, sym_name}
use sloader.Loader.Symbols.Names.{NameClear}
use sloader.Loader.Relocate.{relocate_relas, reloc_addr, case_of, copy_source}
use sloader.Loader.Relocate.Copies.{CopiedFrom, of_binary, copied_byte}
use sloader.Examples.{one_object, bytes_at, empty_memory, value_or, is_ok, value_or-eq}
use sloader.Examples.Loaders.{libc}

-- The name "d" at 101, and the byte 7 in the library's object at 4160.
abbrev memory : Mem
memory = bytes_at ((101, b'd') ∷ (4163, 7) ∷ [])

abbrev undefined_d : Elf64Sym
undefined_d = record {
  st_name = 1;
  st_info = 17;
  st_other = 0;
  st_shndx = 0;
  st_value = 0;
  st_size = 8;
}

abbrev defined_d : Elf64Sym
defined_d = record undefined_d { st_shndx = 7; st_value = 64 }

abbrev copy_d : Elf64Rela
copy_d = record { r_offset = 256; r_info = 5; r_addend = 0 }

abbrev main : ElfBinary
unfolding members
main = record (members one_object (codes "/bin/d") empty_memory) {
  base_addr = 0x200000;
  strtab = 100;
  symtabs = undefined_d ∷ [];
}

abbrev library : ElfBinary
unfolding members
library = record (members one_object (codes "/lib/d.so") empty_memory) {
  base_addr = 4096;
  strtab = 100;
  symtabs = defined_d ∷ [];
}

abbrev bins : List ElfBinary
unfolding main library
bins = main ∷ library ∷ []

abbrev after : Mem
unfolding relocate_relas
after = value_or memory (relocate_relas libc bins main ([] ++ copy_d ∷ []) memory)

copies : relocate_relas libc bins main ([] ++ copy_d ∷ []) memory ≡ ok after
unfolding after relocate_relas bins main library search_sym cstring copy_source
copies = value_or-eq memory _ ok_run
  where
    ok_run : is_ok (relocate_relas libc bins main ([] ++ copy_d ∷ []) memory) ≡ true
    ok_run = refl

d_found : search_sym memory bins (sym_name memory main undefined_d) true ≡ some (1, 0)
unfolding search_sym bins main library cstring
d_found = refl

d_from : CopiedFrom libc memory bins (sym_name memory main undefined_d) 4160 8
unfolding bins main library
d_from = of_binary 1 0 library defined_d refl d_found (record { binary = refl; symbol = refl })

main_clear : NameClear memory [] main undefined_d
unfolding main
main_clear = record {
  text = codes "d";
  holds = (refl, (λ e. cc e), refl);
  short = omega arith;
  clear = tt;
}

library_clear : NameClear memory [] library defined_d
unfolding library
library_clear = record {
  text = codes "d";
  holds = (refl, (λ e. cc e), refl);
  short = omega arith;
  clear = tt;
}

copied_byte_example : after (reloc_addr main copy_d + 3) ≡ memory (4160 + 3)
unfolding bins main library case_of
copied_byte_example =
    copied_byte libc bins main 8 [] [] copy_d memory after 0 undefined_d 4160 8 3 (omega arith)
      ((omega arith, tt), ((omega arith, tt), tt)) copies refl refl refl d_from (omega arith)
      ((main_clear, tt), ((library_clear, tt), tt)) tt tt
