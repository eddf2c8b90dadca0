-- ===== src/Loader.antt =====
-- The class DynLoader of dyn_loader.h and dyn_loader.cc: its state, and LoadDependingLibs.
pub mod Queue
pub mod Symbols
pub mod Relocate
use sloader.Base.{
  ℕ, zero, suc, ◌||◌, Option, none, some, List, [], ◌∷◌, ◌++◌, map, if◌then◌else◌, Str, codes, elem,
  contains, Bool,
}
use sloader.Result.{Result, ok, err, out_of_fuel, queue_loop, ◌>>=◌}
use sloader.System.{System, Machine}
use sloader.Binary.{ElfBinary, elf_binary, filename}
use sloader.Binary.Load.{load}
use sloader.Library.{find_library}

-- `args` and `envs` hold the texts; `relocated` the paths that `relocated_` maps to true.
pub record DynLoader : Type 0 where
  pub binaries : List ElfBinary
  pub main_path : Str
  pub args : List Str
  pub envs : List Str
  pub next_base_addr : ℕ
  pub loaded : List Str
  pub relocated : List Str

-- `DynLoader::DynLoader`
unfoldable pub dyn_loader : Str → List Str → List Str → DynLoader
dyn_loader main_path args envs = record {
  binaries = [];
  main_path = main_path;
  args = args;
  envs = envs;
  next_base_addr = 0x1400000;
  loaded = [];
  relocated = [];
}

-- An element of the queue: a library's name, and the paths of the binary that needs it.
pub record Request : Type 0 where
  pub library_name : Str
  pub runpath : Option Str
  pub rpath : Option Str

abbrev pub requests : ElfBinary → List Request
requests b = map (λ n. record { library_name = n; runpath = b.runpath; rpath = b.rpath }) b.neededs

-- `binaries_.emplace_back(ELFBinary(path))` and the call of `Load` on it
unfoldable pub load_binary :
    System → Str → DynLoader → Machine → Result (ElfBinary × DynLoader × Machine)
unfolding elf_binary load
load_binary sys path l k = do
  b ← elf_binary sys path
  (b', next, k') ← load sys b l.next_base_addr k
  ok (b', record l { binaries = l.binaries ++ (b' ∷ []); next_base_addr = next }, k')

-- The loader and libc.so are not loaded.
unfoldable pub is_skipped : Str → Bool
unfolding contains
is_skipped name = contains name (codes "ld-linux") || contains name (codes "libc.so")

-- The body of the loop for a name that is not in `loaded_`: the requests that it pushes.
unfoldable pub load_request :
    System → Request → DynLoader → Machine → Result (List Request × DynLoader × Machine)
unfolding is_skipped find_library load_binary
load_request sys r l k =
    let l' : DynLoader = record l { loaded = r.library_name ∷ l.loaded } in
    if is_skipped r.library_name then ok ([], l', k) else (do
      library_path ← find_library sys r.library_name r.runpath r.rpath
      (b, l'', k') ← load_binary sys library_path l' k
      ok (requests b, l'', k'))

-- `while (!queue.empty())`, with fuel
unfoldable pub load_loop :
    System → ℕ → List Request → DynLoader → Machine → Result (DynLoader × Machine)
unfolding load_request
load_loop sys zero queue l k = err (out_of_fuel queue_loop)
load_loop sys (suc fuel) [] l k = ok (l, k)
load_loop sys (suc fuel) (r ∷ queue) l k =
    let skip = load_loop sys fuel queue l k in
    let next : Result (DynLoader × Machine) = (do
      (pushed, l', k') ← load_request sys r l k
      load_loop sys fuel (queue ++ pushed) l' k') in
    if elem r.library_name l.loaded then skip else next

-- `DynLoader::LoadDependingLibs`
unfoldable pub load_depending_libs :
    System → ℕ → Str → DynLoader → Machine → Result (DynLoader × Machine)
unfolding load_binary load_loop filename
load_depending_libs sys fuel root_path l k = do
  (b, l', k') ← load_binary sys root_path l k
  load_loop sys fuel (requests b) (record l' { loaded = filename root_path ∷ l'.loaded }) k'
