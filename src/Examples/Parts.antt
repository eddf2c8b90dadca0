-- ===== src/Examples/Parts.antt =====
-- Examples for the constructor of a binary, its dynamic table, relocations that fail, and the bounds of
-- the thread-local blocks.
use sloader.Base.{◌≡◌, ◌↔◌, refl, inr, true, List, [], ◌∷◌, ◌++◌, codes, All, arith}
use sloader.Result.{ok, err, check_failed}
use sloader.Memory.{Mem, read32, read64}
use sloader.Elf.{Elf64Phdr, Elf64Rela, read_dyn}
use sloader.Binary.{ElfBinary, members, elf_binary}
use sloader.Binary.Headers.{Construction, elf_binary-Construction}
use sloader.Binary.Dynamic.{parse_dynamic}
use sloader.Binary.Dynamic.Parsing.{Parsed, dynamic_table, parse_dynamic-Parsed}
use sloader.Loader.{DynLoader}
use sloader.Loader.Relocate.{relocate}
use sloader.Loader.Relocate.Failures.{StopsAt, pending, relocate-StopsAt}
use sloader.Execute.Tls.{place_all, init_tls, tls_space, tls_get_addr}
use sloader.Execute.Tls.Block.{FileFits}
use sloader.Execute.Tls.Image.{tls_total, image_byte, NoTls}
use sloader.Execute.Tls.Bounds.{Confined, init_tls-Confined}
use sloader.Execute.Tls.GetAddr.{tls_get_addr-image}
use sloader.Examples.{one_object, bytes_at, object_bytes, new_loader, value_or, is_ok, value_or-eq}
use sloader.Examples.Loaders.{libc, names}

elf_binary-Construction_example :
    Construction one_object (codes "/bin/a") (elf_binary one_object (codes "/bin/a"))
elf_binary-Construction_example = elf_binary-Construction one_object (codes "/bin/a")

-- The object at address 4096, with a DT_NEEDED for "m" and a DT_INIT.
abbrev image : Mem
image =
    bytes_at
      ((4272, 5) ∷ (4280, 16) ∷ (4288, 1) ∷ (4296, 2) ∷ (4304, 12) ∷ (4312, 80) ∷ (4114, b'm') ∷ [])

abbrev table_header : Elf64Phdr
table_header = record {
  p_type = 2;
  p_flags = 4;
  p_offset = 176;
  p_vaddr = 176;
  p_filesz = 48;
  p_memsz = 48;
}

abbrev mapped : ElfBinary
unfolding members
mapped = record (members one_object (codes "/bin/a") object_bytes) {
  base_addr = 4096;
  file_dynamic = table_header;
}

abbrev parsed : ElfBinary
unfolding parse_dynamic
parsed = value_or mapped (parse_dynamic image mapped)

parses : parse_dynamic image mapped ≡ ok parsed
unfolding parsed parse_dynamic mapped read_dyn read64 read32
parses = value_or-eq mapped _ ok_run
  where
    ok_run : is_ok (parse_dynamic image mapped) ≡ true
    ok_run = refl

parse_dynamic-Parsed_example : Parsed image (dynamic_table image mapped) mapped parsed
parse_dynamic-Parsed_example = parse_dynamic-Parsed image mapped parsed parses

-- A relocation whose symbol is not in the table.
abbrev no_such_symbol : Elf64Rela
no_such_symbol = record { r_offset = 0; r_info = 0x700000006; r_addend = 0 }

abbrev broken : ElfBinary
unfolding members
broken = record (members one_object (codes "/lib/b.so") object_bytes) {
  base_addr = 4096;
  relas = no_such_symbol ∷ [];
}

abbrev broken_loader : DynLoader
unfolding broken
broken_loader = record new_loader { binaries = broken ∷ [] }

relocate-StopsAt_example :
    (relocate libc broken_loader names ≡ err check_failed)
    ↔ StopsAt libc broken_loader.binaries
        (pending broken_loader.relocated broken_loader.binaries)
        names
        check_failed
relocate-StopsAt_example = relocate-StopsAt libc broken_loader names check_failed

-- Two binaries, the first with 16 bytes of thread-local data, 8 of them in the file.
abbrev tls_header : Elf64Phdr
tls_header = record {
  p_type = 7;
  p_flags = 4;
  p_offset = 0;
  p_vaddr = 512;
  p_filesz = 8;
  p_memsz = 16;
}

abbrev threaded : ElfBinary
unfolding members
threaded = record (members one_object (codes "/lib/t.so") object_bytes) {
  base_addr = 0x100000;
  has_tls = true;
  file_tls = tls_header;
}

abbrev both : List ElfBinary
unfolding threaded broken
both = [] ++ threaded ∷ broken ∷ []

both_total : tls_total both ≡ 16
unfolding tls_total both threaded broken
both_total = refl

both_fit : All FileFits both
unfolding FileFits both threaded broken
both_fit = (omega arith, (omega arith, tt))

init_tls-Confined_example : Confined 65536 both names (init_tls 65536 both tls_space names)
init_tls-Confined_example =
    init_tls-Confined 65536 both names (omega arith) (omega (arith, both_total)) both_fit

tls_get_addr-image_example :
    (place_all 65536 both 4096 names).1 (tls_get_addr 65536 (place_all 65536 both 4096 names).0 4)
    ≡ image_byte names threaded 4
unfolding both threaded broken NoTls
tls_get_addr-image_example =
    tls_get_addr-image 65536 [] threaded (broken ∷ []) 4096 names 4 refl (refl, tt) (omega arith)
      (omega arith) (omega (arith, both_total)) both_fit (inr (omega arith))
