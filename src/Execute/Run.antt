-- ===== src/Execute/Run.antt =====
-- DynLoader::Execute as a whole, DynLoader::Run, and the one loader of the process.
pub mod Begin
pub mod Whole
pub mod Reaches
use sloader.Base.{ℕ, ◌==◌, not, Option, none, some, List, [], ◌∷◌, Str, Bool}
use sloader.Base.Words.{add64}
use sloader.Result.{Result, ok, err, check, check_failed, undefined_behaviour, ◌>>=◌, ◌>>◌}
use sloader.System.{System, Machine}
use sloader.Memory.{Mem}
use sloader.Binary.{ElfBinary}
use sloader.Loader.{DynLoader, dyn_loader, load_depending_libs}
use sloader.Loader.Relocate.{Libc, relocate}
use sloader.Execute.Init.{Process, init_binaries}
use sloader.Execute.Stack.{aux_types, aux_values, build_stack, push_all}
use sloader.Execute.Tls.{write_dummy, init_tls}

-- What calls of loaded code do, and where the loader's own objects stand: the characters of the
-- strings and the stack pointer when ExecuteCore begins.
pub record Host : Type 0 where
  pub code : ℕ → Mem → Mem
  pub c_strs : List Str → List ℕ
  pub rsp : ℕ

-- The state at the jump into the program.
pub record Started : Type 0 where
  pub entry : ℕ
  pub rsp : ℕ
  pub mem : Mem
  pub calls : List ℕ
  pub sloader_tls_offset : ℕ

-- `binaries_[0]`
unfoldable pub main_binary : List ElfBinary → Result ElfBinary
main_binary [] = err undefined_behaviour
main_binary (b ∷ rest) = ok b

-- `DynLoader::Execute`, for the thread-local array at `block`
unfoldable pub execute : System → Host → ℕ → DynLoader → ℕ → Mem → Result Started
unfolding init_binaries aux_values build_stack init_tls push_all main_binary
execute sys host block l sloader_tls_offset m = do
  p ← init_binaries host.code l.binaries (record { mem = m; calls = [] })
  check (not (sys.getauxval 25 == 0))
  stack ← build_stack (aux_values sys aux_types) (host.c_strs l.envs) (host.c_strs l.args)
  (offset, m') ← init_tls block l.binaries sloader_tls_offset p.mem
  main ← main_binary l.binaries
  let (rsp, m'') = push_all stack host.rsp m'
  ok (record {
    entry = add64 main.ehdr.e_entry main.base_addr;
    rsp = rsp;
    mem = m'';
    calls = p.calls;
    sloader_tls_offset = offset;
  })

-- `DynLoader::Run`
unfoldable pub run : System → Libc → Host → ℕ → DynLoader → ℕ → Machine → Result Started
unfolding load_depending_libs relocate execute
run sys libc host fuel l sloader_tls_offset k = do
  (l', k') ← load_depending_libs sys fuel l.main_path l k
  (l'', m) ← relocate libc l' k'.mem
  execute sys host libc.space.block l'' sloader_tls_offset m

-- `InitializeDynLoader`: the variable `dynloader`, and the memory
unfoldable pub initialize_dyn_loader :
    ℕ → Str → List Str → List Str → Option DynLoader → Mem → Result (DynLoader × Mem)
unfolding dyn_loader write_dummy
initialize_dyn_loader block main_path envs args none m =
    ok (dyn_loader main_path args envs, write_dummy m block)
initialize_dyn_loader block main_path envs args (some l) m = err check_failed

-- `GetDynLoader`
unfoldable pub get_dyn_loader : Option DynLoader → Result DynLoader
get_dyn_loader none = err check_failed
get_dyn_loader (some l) = ok l
