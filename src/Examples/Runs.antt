-- ===== src/Examples/Runs.antt =====
-- Examples for the runs of the loader: a program with one library that is skipped, dlopen, and Run.
use sloader.Base.{
  ℕ, ◌≡◌, ◌↔◌, refl, subst, sym, true, false, Option, none, some, List, [], ◌∷◌, Str, codes, elem,
  map, if◌then◌else◌, ◌*◌, ◌^◌, ◌<◌, ◌≤◌, length, All, arith,
}
use sloader.Result.{Failure, Result, ok, err, ok-injective}
use sloader.System.{System, Machine}
use sloader.Memory.{Mem, read16, read32, read64, cstring}
use sloader.Elf.{read_ehdr, read_phdr, read_dyn}
use sloader.Binary.{ElfBinary, members, filename}
use sloader.Binary.Load.{load}
use sloader.Loader.{DynLoader, dyn_loader, load_binary, is_skipped, load_depending_libs}
use sloader.Loader.Relocate.{relocate}
use sloader.Loader.Queue.Reach.{Graph, Reach, Needs, Follows, load_depending_libs-Reach}
use sloader.Loader.Queue.History.{History, load_depending_libs-History}
use sloader.Execute.Run.{Host, Started, run}
use sloader.Execute.Run.Whole.{Ready, run-Ready}
use sloader.Execute.Run.Begin.{Startable, program_stack}
use sloader.Execute.Run.Reaches.{AllApply, Starts, run-Starts}
use sloader.Execute.Init.Order.{KeepsWords}
use sloader.Execute.Stack.{aux_values}
use sloader.Execute.Stack.Push.{initial_stack}
use sloader.Execute.Tls.{tls_block_size}
use sloader.Loader.Relocate.Failures.{relocate-StopsAt}
use sloader.Dl.{sloader_dlopen}
use sloader.Dl.States.{Reached, started, opened, Linked, Reached-Linked}
use sloader.Examples.{
  one_object, fresh, new_loader, bytes_at, value_or, is_ok, value_or-eq, words_All,
}
use sloader.Examples.Loaders.{libc}

-- An executable at 0x400000 with one PT_LOAD of 256 bytes and a PT_DYNAMIC that holds DT_STRTAB and a
-- DT_NEEDED for "libc.so.6".
abbrev program_bytes : Mem
program_bytes = bytes_at (
    (16, 2)
    ∷ (32, 64)
    ∷ (54, 56)
    ∷ (56, 2)
    ∷ (64, 1)
    ∷ (68, 5)
    ∷ (82, 64)
    ∷ (97, 1)
    ∷ (105, 1)
    ∷ (120, 2)
    ∷ (136, 176)
    ∷ (138, 64)
    ∷ (152, 32)
    ∷ (160, 32)
    ∷ (176, 5)
    ∷ (184, 208)
    ∷ (186, 64)
    ∷ (192, 1)
    ∷ (208, b'l')
    ∷ (209, b'i')
    ∷ (210, b'b')
    ∷ (211, b'c')
    ∷ (212, b'.')
    ∷ (213, b's')
    ∷ (214, b'o')
    ∷ (215, b'.')
    ∷ (216, b'6')
    ∷ [])

abbrev programs : System
programs = record one_object {
  open_file = λ path. some (record { size = 256; bytes = program_bytes });
}

abbrev needs_libc : List Str
needs_libc = codes "libc.so.6" ∷ []

abbrev libc_graph : Graph
libc_graph n = if is_skipped n then [] else needs_libc

program-Needs : (path : Str) → Needs programs path needs_libc
unfolding load_binary load read_phdr read32 read_ehdr read64 read16 read_dyn cstring
program-Needs path l l' k k' b h =
    subst (λ (p : ElfBinary × DynLoader × Machine). p.0.neededs ≡ needs_libc) (ok-injective h) refl

graph_skipped : (n : Str) → is_skipped n ≡ true → libc_graph n ≡ []
graph_skipped n e = rw e refl

graph_kept : (n : Str) → is_skipped n ≡ false → libc_graph n ≡ needs_libc
graph_kept n e = rw e refl

programs-Follows : Follows programs libc_graph
programs-Follows = record {
  skipped = graph_skipped;
  found = λ r path kept found.
      subst (Needs programs path) (sym (graph_kept r.library_name kept)) (program-Needs path);
}

abbrev program_loaded : DynLoader × Machine
unfolding load_depending_libs
program_loaded =
    value_or (new_loader, fresh) (load_depending_libs programs 9 (codes "/bin/a") new_loader fresh)

program_loads : load_depending_libs programs 9 (codes "/bin/a") new_loader fresh ≡ ok program_loaded
unfolding program_loaded load_depending_libs load read_phdr read32 read_ehdr read64 read16 read_dyn
    cstring
program_loads = value_or-eq (new_loader, fresh) _ ok_run
  where
    ok_run : is_ok (load_depending_libs programs 9 (codes "/bin/a") new_loader fresh) ≡ true
    ok_run = refl

load_depending_libs-Reach_example :
    (elem (codes "libc.so.6") program_loaded.0.loaded ≡ true)
    ↔ Reach libc_graph (filename (codes "/bin/a")) (codes "libc.so.6")
unfolding is_skipped filename
load_depending_libs-Reach_example =
    load_depending_libs-Reach programs libc_graph 9 (codes "/bin/a") new_loader program_loaded.0
      fresh program_loaded.1 (codes "libc.so.6") programs-Follows (program-Needs (codes "/bin/a"))
      refl program_loads

load_depending_libs-History_example :
    History programs (codes "/bin/a") program_loaded.0.loaded program_loaded.0.binaries
load_depending_libs-History_example =
    load_depending_libs-History programs 9 (codes "/bin/a") new_loader program_loaded.0 fresh
      program_loaded.1 program_loads refl refl

-- The same program, relocated; then the library "g.so" is opened, which is the same file.
abbrev program_relocated : DynLoader × Mem
unfolding relocate
program_relocated =
    value_or (new_loader, fresh.mem) (relocate libc program_loaded.0 program_loaded.1.mem)

program_relocates : relocate libc program_loaded.0 program_loaded.1.mem ≡ ok program_relocated
unfolding program_relocated relocate program_loaded load read_phdr read32 read_ehdr read64 read16
    read_dyn cstring
program_relocates = value_or-eq (new_loader, fresh.mem) _ ok_run
  where
    ok_run : is_ok (relocate libc program_loaded.0 program_loaded.1.mem) ≡ true
    ok_run = refl

abbrev running : Machine
running = record program_loaded.1 { mem = program_relocated.1 }

program_Reached : Reached programs libc (some program_relocated.0) running
unfolding dyn_loader
program_Reached =
    started (codes "/bin/a") [] [] 9 fresh program_loaded.1 program_loaded.0 program_relocated.0
      program_relocated.1 program_loads program_relocates

abbrev g_opened : ℕ × Option DynLoader × Machine
unfolding sloader_dlopen
g_opened =
    value_or (0, none, fresh)
      (sloader_dlopen programs libc 9 (some (codes "/lib/g.so")) (some program_relocated.0) running)

opens :
    sloader_dlopen programs libc 9 (some (codes "/lib/g.so")) (some program_relocated.0) running
    ≡ ok g_opened
unfolding g_opened sloader_dlopen program_loaded program_relocated relocate load_depending_libs load
    read_phdr read32 read_ehdr read64 read16 read_dyn cstring
opens = value_or-eq (0, none, fresh) _ ok_run
  where
    ok_run :
        is_ok (
          sloader_dlopen programs libc 9
            (some (codes "/lib/g.so"))
            (some program_relocated.0)
            running)
        ≡ true
    ok_run = refl

Reached-Linked_example : Linked g_opened.1
Reached-Linked_example = Reached-Linked programs libc g_opened.1 g_opened.2 (
    opened (some (codes "/lib/g.so")) 9 g_opened.0 (some program_relocated.0) g_opened.1 running
      g_opened.2 program_Reached opens)

-- The object of the examples, run.
abbrev host : Host
host = record { code = λ f m. m; c_strs = map (λ s. 7000); rsp = 65536 }

abbrev nothing_started : Started
nothing_started = record { entry = 0; rsp = 0; mem = fresh.mem; calls = []; sloader_tls_offset = 0 }

abbrev begun : Started
unfolding run
begun = value_or nothing_started (run programs libc host 9 new_loader 4096 fresh)

begins : run programs libc host 9 new_loader 4096 fresh ≡ ok begun
unfolding begun run load_depending_libs load read_phdr read32 read_ehdr read64 read16 read_dyn
    cstring
begins = value_or-eq nothing_started _ ok_run
  where
    ok_run : is_ok (run programs libc host 9 new_loader 4096 fresh) ≡ true
    ok_run = refl

run-Ready_example : Ready programs libc host 9 new_loader 4096 fresh begun
run-Ready_example = run-Ready programs libc host 9 new_loader 4096 fresh begun begins refl refl

-- The program needs nothing from the process but AT_RANDOM.
abbrev first_or : ElfBinary → List ElfBinary → ElfBinary
first_or d [] = d
first_or d (b ∷ rest) = b

abbrev no_binary : ElfBinary
no_binary = members programs (codes "/bin/a") program_bytes

abbrev program : ElfBinary
program = first_or no_binary program_loaded.0.binaries

ok_not_err {ℓ} : {A : Type ℓ} {m : Result A} {a : A} {e : Failure} → m ≡ ok a → m ≡ err e → ⊥
ok_not_err h k = cc

program_AllApply : AllApply libc program_loaded.0 program_loaded.1.mem
unfolding AllApply
program_AllApply failure h =
    ok_not_err program_relocates
      ((relocate-StopsAt libc program_loaded.0 program_loaded.1.mem failure).1 h)

program_ready : Startable programs host program_loaded.0
unfolding program_loaded load_depending_libs load read_phdr read32 read_ehdr read64 read16 read_dyn
    cstring tls_block_size KeepsWords
program_ready = record {
  main = program;
  libraries = [];
  binaries = refl;
  arrays = (record { whole = refl; words = λ f m i h. refl }, tt);
  at_random = refl;
  tls_fits = refl;
}

program_words : All (λ (v : ℕ). v < 2 ^ 64) (program_stack programs host program_loaded.0)
unfolding program_stack program_loaded load_depending_libs load read_phdr read32 read_ehdr read64
    read16 read_dyn cstring initial_stack aux_values
program_words = words_All (program_stack programs host program_loaded.0) refl

program_room : 8 * length (program_stack programs host program_loaded.0) ≤ 65536
unfolding program_stack program_loaded load_depending_libs load read_phdr read32 read_ehdr read64
    read16 read_dyn cstring initial_stack aux_values
program_room = omega arith

run-Starts_example :
    Starts programs libc host 9 new_loader 4096 fresh program_loaded.0 program_loaded.1
      program_ready.main
run-Starts_example =
    run-Starts programs libc host 9 new_loader 4096 fresh program_loaded.0 program_loaded.1
      program_loads program_AllApply program_ready program_room program_words
