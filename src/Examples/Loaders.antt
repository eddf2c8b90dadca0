-- ===== src/Examples/Loaders.antt =====
-- Examples for symbols, relocations, the queue of libraries, and dlopen.
use sloader.Base.{
  ℕ, ◌≤◌, ◌≡◌, ◌≢◌, inl, inr, refl, subst, true, false, Option, none, some, [], ◌∷◌, codes, All,
  elem, length, arith,
}
use sloader.Result.{ok, err, out_of_fuel, queue_loop, ok-injective}
use sloader.Memory.{Mem, read16, read32, read64, cstring, memset}
use sloader.Elf.{Elf64Rela, Elf64Sym, read_ehdr, read_phdr, read_dyn}
use sloader.System.{System, File, Machine}
use sloader.Binary.{ElfBinary, members, get_symbol_addr}
use sloader.Binary.Load.{load}
use sloader.Loader.{DynLoader, load_binary, load_depending_libs}
use sloader.Loader.Symbols.{sym_name, search_sym}
use sloader.Loader.Symbols.First.{Resolves, search_sym-Resolves}
use sloader.Loader.Relocate.{Libc, relocate_relas, relocate, resolve}
use sloader.Loader.Relocate.Frame.{reach, relocate-Outside}
use sloader.Loader.Relocate.Values.{symbol_value, relative_value}
use sloader.Loader.Relocate.Once.{relocate_twice}
use sloader.Loader.Relocate.Resolve.{Lookup, resolve-Lookup}
use sloader.Loader.Queue.Closed.{AllLoaded, load_depending_libs-AllLoaded}
use sloader.Loader.Queue.Ends.{Needs, load_depending_libs-ends}
use sloader.Dl.{sloader_dlopen}
use sloader.Dl.Extends.{Kept, sloader_dlopen-Kept}
use sloader.Examples.{
  one_object, fresh, new_loader, bytes_at, empty_memory, value_or, is_ok, value_or-eq,
}

-- The name "f" at 101.
abbrev pub names : Mem
names = bytes_at ((101, b'f') ∷ [])

abbrev f_symbol : Elf64Sym
f_symbol = record {
  st_name = 1;
  st_info = 18;
  st_other = 0;
  st_shndx = 7;
  st_value = 64;
  st_size = 8;
}

-- R_X86_64_JUMP_SLOT for the first symbol, and R_X86_64_RELATIVE.
abbrev jump_slot_f : Elf64Rela
jump_slot_f = record { r_offset = 256; r_info = 7; r_addend = 0 }

abbrev relative_16 : Elf64Rela
relative_16 = record { r_offset = 512; r_info = 8; r_addend = 16 }

abbrev pub f_library : ElfBinary
unfolding members
f_library = record (members one_object (codes "/lib/f.so") empty_memory) {
  base_addr = 4096;
  strtab = 100;
  symtabs = f_symbol ∷ [];
  pltrelas = jump_slot_f ∷ [];
  relas = relative_16 ∷ [];
}

abbrev pub libc : Libc
libc = record {
  libc_map = λ name. none;
  space = record { block = 65536; libc_variables = λ name. none };
}

abbrev pub f_loader : DynLoader
unfolding f_library
f_loader = record new_loader { binaries = f_library ∷ [] }

search_sym-Resolves_example :
    Resolves names
      (f_library ∷ [])
      (codes "f")
      0
      (search_sym names (f_library ∷ []) (codes "f") false)
search_sym-Resolves_example = search_sym-Resolves names (f_library ∷ []) (codes "f") false

resolve-Lookup_example :
    Lookup libc names (f_library ∷ []) (codes "f") (resolve libc names (f_library ∷ []) (codes "f"))
resolve-Lookup_example = resolve-Lookup libc names (f_library ∷ []) (codes "f")

abbrev relocated : DynLoader × Mem
unfolding relocate
relocated = value_or (f_loader, names) (relocate libc f_loader names)

relocates : relocate libc f_loader names ≡ ok relocated
unfolding relocated f_loader resolve search_sym cstring get_symbol_addr
relocates = value_or-eq (f_loader, names) (relocate libc f_loader names) ok_run
  where
    ok_run : is_ok (relocate libc f_loader names) ≡ true
    ok_run = refl

relocate_twice_example : relocate libc relocated.0 relocated.1 ≡ ok relocated
relocate_twice_example = relocate_twice libc f_loader relocated.0 names relocated.1 relocates

relocate-Outside_example : relocated.1 101 ≡ names 101
unfolding f_library
relocate-Outside_example =
    relocate-Outside libc f_loader relocated.0 names relocated.1 8 101 relocates (omega arith)
      ((omega arith, tt), tt) ((inl (omega arith), (inl (omega arith), tt)), tt)

abbrev after : Mem
after =
    value_or names
      (relocate_relas libc (f_library ∷ []) f_library (jump_slot_f ∷ relative_16 ∷ []) names)

relas_run :
    relocate_relas libc (f_library ∷ []) f_library (jump_slot_f ∷ relative_16 ∷ []) names ≡ ok after
unfolding relocate_relas f_library resolve search_sym cstring get_symbol_addr
relas_run = value_or-eq names _ ok_run
  where
    ok_run :
        is_ok
          (relocate_relas libc (f_library ∷ []) f_library (jump_slot_f ∷ relative_16 ∷ []) names)
        ≡ true
    ok_run = refl

f_found : resolve libc names (f_library ∷ []) (sym_name names f_library f_symbol) ≡ ok (some 4160)
unfolding f_library resolve search_sym cstring get_symbol_addr
f_found = refl

symbol_value_example : read64 after 4352 ≡ 4160
unfolding f_library reach
symbol_value_example =
    symbol_value libc (f_library ∷ []) f_library 8 (omega arith) ((omega arith, tt), tt) []
      (relative_16 ∷ []) jump_slot_f names after 0 f_symbol 0 4160 relas_run (inl (inr refl, refl))
      refl refl f_found
      (
        (
          record {
            text = codes "f";
            holds = (refl, (λ e. cc e), refl);
            short = omega arith;
            clear = tt;
          },
          tt,
        ),
        tt,
      )
      (inl (omega arith), tt)

relative_value_example : read64 after 4608 ≡ 4112
unfolding f_library
relative_value_example =
    relative_value libc (f_library ∷ []) f_library 8 (omega arith) ((omega arith, tt), tt)
      (jump_slot_f ∷ []) [] relative_16 names after relas_run (inl refl) tt

-- The queue: the object of the example needs nothing.
abbrev pub object_loaded : DynLoader × Machine
unfolding load_depending_libs
object_loaded =
    value_or (new_loader, fresh)
      (load_depending_libs one_object 9 (codes "/bin/a") new_loader fresh)

pub object_loads :
    load_depending_libs one_object 9 (codes "/bin/a") new_loader fresh ≡ ok object_loaded
unfolding object_loaded load_depending_libs load read_phdr read32 read_ehdr read64 read16 read_dyn
object_loads = value_or-eq (new_loader, fresh) _ ok_run
  where
    ok_run : is_ok (load_depending_libs one_object 9 (codes "/bin/a") new_loader fresh) ≡ true
    ok_run = refl

load_depending_libs-AllLoaded_example : AllLoaded object_loaded.0
load_depending_libs-AllLoaded_example =
    load_depending_libs-AllLoaded one_object 9 (codes "/bin/a") new_loader object_loaded.0 fresh
      object_loaded.1 object_loads tt

-- A system in which every file is an executable with no program headers.
abbrev empty_file : File
empty_file = record { size = 64; bytes = bytes_at ((16, 2) ∷ []) }

abbrev empty_files : System
empty_files = record one_object { open_file = λ path. some empty_file }

empty_files-Needs : Needs empty_files [] 0
unfolding load_binary load read_phdr read32 read_ehdr read64 read16 read_dyn
empty_files-Needs path l l' k k' b h =
    subst
      (λ (p : ElfBinary × DynLoader × Machine).
        All (λ n. elem n [] ≡ true) p.0.neededs × (length p.0.neededs ≤ 0))
      (ok-injective h) (tt, omega arith)

load_depending_libs-ends_example :
    load_depending_libs empty_files 1 (codes "/bin/a") new_loader fresh
    ≢ err (out_of_fuel queue_loop)
load_depending_libs-ends_example =
    load_depending_libs-ends empty_files [] 0 1 (codes "/bin/a") new_loader fresh empty_files-Needs
      (omega arith)

-- dlopen of the object, with a loader that has the library.
abbrev opened : ℕ × Option DynLoader × Machine
unfolding sloader_dlopen
opened =
    value_or (0, none, fresh)
      (sloader_dlopen one_object libc 9 (some (codes "/lib/g.so")) (some f_loader) fresh)

opens :
    sloader_dlopen one_object libc 9 (some (codes "/lib/g.so")) (some f_loader) fresh ≡ ok opened
unfolding opened sloader_dlopen read_ehdr read16 read_phdr read32 read64 read_dyn resolve search_sym
    cstring memset get_symbol_addr
opens = value_or-eq (0, none, fresh) _ ok_run
  where
    ok_run :
        is_ok (sloader_dlopen one_object libc 9 (some (codes "/lib/g.so")) (some f_loader) fresh)
        ≡ true
    ok_run = refl

sloader_dlopen-Kept_example : Kept (some f_loader) opened.1
sloader_dlopen-Kept_example =
    sloader_dlopen-Kept one_object libc 9 (some (codes "/lib/g.so")) (some f_loader) opened.1 fresh
      opened.2 opened.0 opens
