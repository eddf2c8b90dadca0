-- ===== src/Examples/Starts.antt =====
-- Examples for initialisers, the initial stack, thread-local blocks and the start of a program.
use sloader.Base.{
  ℕ, ◌+◌, ◌-◌, ◌*◌, ◌^◌, ◌<◌, ◌≤◌, ◌≡◌, inl, inr, refl, true, none, some, List, [], ◌∷◌, ◌++◌,
  codes, All, length, arith, map,
}
use sloader.Base.Words.{add64}
use sloader.Result.{ok}
use sloader.System.{Machine}
use sloader.Memory.{Mem, read16, read32, read64, cstring}
use sloader.Elf.{Elf64Phdr, Elf64Sym, read_ehdr, read_phdr}
use sloader.Binary.{ElfBinary, members}
use sloader.Loader.{DynLoader}
use sloader.Loader.Symbols.{TlsSpace, tls_sym_offset, first_tls}
use sloader.Execute.Init.{Process, init_binaries}
use sloader.Execute.Init.Order.{
  KeepsArray, KeepsWords, all_initialisers, call_all, init_binaries-order,
}
use sloader.Execute.Stack.{aux_values, build_stack, push_all}
use sloader.Execute.Stack.Push.{initial_stack, InitialStack, build_stack-InitialStack}
use sloader.Execute.Tls.{place_all, tls_space, tls_block_size}
use sloader.Execute.Tls.Block.{FileFits}
use sloader.Execute.Tls.Image.{tls_total, image_byte, place_all-image}
use sloader.Execute.Tls.Overwrite.{place_all-overwrites}
use sloader.Execute.Tls.Offsets.{tls_sym_offset-address}
use sloader.Execute.Run.{Host, Started, execute}
use sloader.Execute.Run.Begin.{Startable, program_stack, RunsFrom, execute-RunsFrom}
use sloader.ExecLoader.Stack.{exec_stack-reversed}
use sloader.ExecLoader.{ExecLoader, exec_stack, exec_loader, load}
use sloader.ExecLoader.Memories.{Maps, load-Maps}
use sloader.Examples.{
  one_object, fresh, new_loader, bytes_at, empty_memory, object_bytes, value_or, is_ok, value_or-eq,
  words_All,
}

-- A binary with DT_INIT and an init array of two entries, the second of which is null.
abbrev startup : ElfBinary
unfolding members
startup = record (members one_object (codes "/bin/a") object_bytes) {
  base_addr = 4096;
  init = 16;
  init_array = 256;
  init_arraysz = 16;
}

-- Calls that write nothing.
abbrev quiet_code : ℕ → Mem → Mem
quiet_code f m = m

abbrev array_memory : Mem
array_memory = bytes_at ((4352, 80) ∷ [])

startup-KeepsArray : KeepsArray quiet_code startup
unfolding startup KeepsWords
startup-KeepsArray = record { whole = refl; words = λ f m i h. refl }

abbrev before : Process
before = record { mem = array_memory; calls = [] }

init_binaries-order_example :
    init_binaries quiet_code (startup ∷ []) before
    ≡ ok (call_all quiet_code (all_initialisers array_memory (startup ∷ [])) before)
init_binaries-order_example =
    init_binaries-order quiet_code (startup ∷ []) before (startup-KeepsArray, tt)

-- One pair, one environment string and two arguments.
abbrev small_stack : List ℕ
small_stack = initial_stack ((25, 4096) ∷ []) (7000 ∷ []) (8000 ∷ 8010 ∷ [])

small_words : All (λ (v : ℕ). v < 2 ^ 64) small_stack
unfolding initial_stack
small_words = words_All small_stack refl

stack_room : 8 * length small_stack ≤ 65536
unfolding initial_stack
stack_room = omega arith

build_stack-InitialStack_example :
    (words : List ℕ) × (build_stack ((25, 4096) ∷ []) (7000 ∷ []) (8000 ∷ 8010 ∷ []) ≡ ok words)
    × InitialStack small_stack 65536 empty_memory (push_all words 65536 empty_memory)
build_stack-InitialStack_example =
    build_stack-InitialStack ((25, 4096) ∷ []) (7000 ∷ []) (8000 ∷ 8010 ∷ []) 65536 empty_memory
      stack_room small_words

exec_stack-reversed_example :
    exec_stack ((25, 4096) ∷ []) (7000 ∷ 7010 ∷ []) 8000
    ≡ build_stack ((25, 4096) ∷ []) (7010 ∷ 7000 ∷ []) (8000 ∷ [])
exec_stack-reversed_example = exec_stack-reversed ((25, 4096) ∷ []) (7000 ∷ 7010 ∷ []) 8000

-- Two binaries with 16 bytes of thread-local data, 8 of them in the file.
abbrev tls_header : Elf64Phdr
tls_header = record {
  p_type = 7;
  p_flags = 4;
  p_offset = 0;
  p_vaddr = 512;
  p_filesz = 8;
  p_memsz = 16;
}

abbrev tls_variable : Elf64Sym
tls_variable = record {
  st_name = 1;
  st_info = 22;
  st_other = 0;
  st_shndx = 9;
  st_value = 8;
  st_size = 8;
}

abbrev threaded : ElfBinary
unfolding members
threaded = record (members one_object (codes "/lib/t.so") object_bytes) {
  base_addr = 0x100000;
  has_tls = true;
  file_tls = tls_header;
  strtab = 100;
  symtabs = tls_variable ∷ [];
}

abbrev names : Mem
names = bytes_at ((101, b'v') ∷ [])

two_total : tls_total (threaded ∷ threaded ∷ []) ≡ 32
unfolding tls_total threaded
two_total = refl

two_fit : All FileFits (threaded ∷ threaded ∷ [])
unfolding FileFits threaded
two_fit = (omega arith, (omega arith, tt))

place_all-image_example :
    (place_all 65536 ([] ++ threaded ∷ threaded ∷ []) 4096 names).1
      (65536 + 4096 - tls_total [] - threaded.file_tls.p_memsz + 9)
    ≡ image_byte names threaded 9
unfolding threaded
place_all-image_example =
    place_all-image 65536 threaded (threaded ∷ []) refl 9 (omega arith) (inl (omega arith)) [] 4096
      names (omega arith) (omega (arith, two_total)) two_fit (inr (omega arith))

place_all-overwrites_example :
    read64
      (place_all 65536 ([] ++ threaded ∷ threaded ∷ []) 4096 names).1
      (65536 + (4096 - tls_total [] - threaded.file_tls.p_memsz))
    ≡ 65536 + (4096 - tls_total [] - threaded.file_tls.p_memsz)
unfolding threaded
place_all-overwrites_example =
    place_all-overwrites 65536 threaded threaded [] refl refl (omega arith) [] 4096 names
      (omega arith) (omega (arith, two_total)) two_fit

abbrev thread_space : TlsSpace
thread_space = record { block = 65536; libc_variables = λ name. none }

v_found : first_tls names (codes "v") threaded threaded.symtabs ≡ some 8
unfolding first_tls threaded cstring
v_found = refl

tls_sym_offset-address_example :
    (offset : ℕ) × (tls_sym_offset thread_space names ([] ++ threaded ∷ startup ∷ []) (codes "v")
      ≡ ok offset)
    × (add64 (65536 + tls_space) offset
        ≡ 65536 + tls_space - tls_total [] - threaded.file_tls.p_memsz + 8)
unfolding threaded tls_total
tls_sym_offset-address_example =
    tls_sym_offset-address thread_space names (codes "v") [] threaded (startup ∷ []) 8 (omega arith)
      tt v_found (omega arith) (omega arith)

-- The program that consists of the first binary alone.
abbrev host : Host
host = record { code = quiet_code; c_strs = map (λ s. 7000); rsp = 65536 }

abbrev startup_loader : DynLoader
unfolding startup
startup_loader = record new_loader {
  binaries = startup ∷ [];
  args = codes "a" ∷ [];
  envs = codes "E=1" ∷ [];
}

startup_ready : Startable one_object host startup_loader
unfolding startup_loader tls_block_size startup
startup_ready = record {
  main = startup;
  libraries = [];
  binaries = refl;
  arrays = (startup-KeepsArray, tt);
  at_random = refl;
  tls_fits = refl;
}

program_room : 8 * length (program_stack one_object host startup_loader) ≤ 65536
unfolding program_stack startup_loader initial_stack aux_values
program_room = omega arith

program_words : All (λ (v : ℕ). v < 2 ^ 64) (program_stack one_object host startup_loader)
unfolding program_stack startup_loader initial_stack aux_values
program_words = words_All (program_stack one_object host startup_loader) refl

execute-RunsFrom_example :
    (s : Started) × (execute one_object host 32768 startup_loader 4096 array_memory ≡ ok s)
    × RunsFrom one_object host 32768 startup_loader 4096 array_memory startup_ready.main s
execute-RunsFrom_example =
    execute-RunsFrom one_object host 32768 startup_loader 4096 array_memory startup_ready
      program_room program_words

-- The object of the example as a static program.
abbrev static_loader : ExecLoader
unfolding exec_loader read_phdr read32 read_ehdr read64 read16
static_loader =
    value_or
      (record {
        head = empty_memory;
        size = 0;
        filename = [];
        ehdr = read_ehdr empty_memory 0;
        phdrs = [];
        ph_dynamic = none;
        memories = [];
      })
      (exec_loader (codes "a") object_bytes 4096)

abbrev mapped : ExecLoader × Machine
unfolding load
mapped = value_or (static_loader, fresh) (load one_object static_loader fresh)

maps : load one_object static_loader fresh ≡ ok mapped
unfolding mapped load static_loader
maps = value_or-eq (static_loader, fresh) _ ok_run
  where
    ok_run : is_ok (load one_object static_loader fresh) ≡ true
    ok_run = refl

load-Maps_example : Maps static_loader.phdrs static_loader fresh mapped.0 mapped.1
load-Maps_example = load-Maps one_object static_loader mapped.0 fresh mapped.1 maps
