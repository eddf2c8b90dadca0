-- ===== src/Main.antt =====
-- sloader.cc: the command line, the search of PATH, and the start of the loader.
pub mod Path
use sloader.Base.{
  ℕ, ◌+◌, ◌==◌, ◌&&◌, ◌||◌, Bool, true, false, Option, none, some, List, [], ◌∷◌, ltb, Str, codes,
  contains, if◌then◌else◌,
}
use sloader.Result.{Result, ok, err, aborted, check_failed, undefined_behaviour, check, ◌>>=◌, ◌>>◌}
use sloader.System.{System, Machine}
use sloader.Elf.{ehdr_type_exec, ehdr_type_dyn, read_ehdr}
use sloader.Utils.Split.{split_with}
use sloader.Library.{join}
use sloader.Loader.Relocate.{Libc}
use sloader.Execute.Run.{Host, Started, run, initialize_dyn_loader}

-- The loop over the directories of PATH; `fullpath` stays empty if none has the file.
unfoldable pub find_in_path : System → Str → List Str → Str
unfolding join
find_in_path sys argv0 [] = []
find_in_path sys argv0 (dir ∷ rest) =
    let p = join dir argv0 in
    let later = find_in_path sys argv0 rest in
    if sys.exists p && sys.is_regular_file p then p else later

-- `argv0[0] == '.'`
unfoldable pub starts_with_dot : Str → Bool
starts_with_dot [] = false
starts_with_dot (c ∷ s) = c == b'.'

-- `SplitWith(std::string(getenv("PATH")), ":")`: a null pointer is no string
unfoldable pub path_dirs : Option Str → Result (List Str)
unfolding split_with
path_dirs none = err undefined_behaviour
path_dirs (some path) = split_with path (codes ":")

-- `fullpath`
unfoldable pub find_fullpath : System → Str → Result Str
unfolding starts_with_dot contains path_dirs find_in_path
find_fullpath sys argv0 =
    if starts_with_dot argv0 || contains argv0 (codes "/")
    then ok argv0
    else (do dirs ← path_dirs (sys.getenv (codes "PATH")); ok (find_in_path sys argv0 dirs))

-- `GetEType`
unfoldable pub get_etype : System → Str → Result ℕ
unfolding read_ehdr
get_etype sys filepath = elim (sys.open_file filepath) [
  | none ↦ err check_failed
  | some f ↦ do check (ltb (8 + 16) f.size); ok (read_ehdr f.bytes 0).e_type
]

-- The loader for a program that is there, and of a type that is supported.
unfoldable pub start :
    System → Libc → Host → ℕ → Str → List Str → List Str → ℕ → Machine → Result Started
unfolding get_etype initialize_dyn_loader run
start sys libc host fuel fullpath args envs sloader_tls_offset k = do
  etype ← get_etype sys fullpath
  if etype == ehdr_type_dyn || etype == ehdr_type_exec
      then (do
        (l, m) ← initialize_dyn_loader libc.space.block fullpath envs args none k.mem
        run sys libc host fuel l sloader_tls_offset (record k { mem = m }))
      else err aborted

-- `main`, for the arguments after the loader's own name
unfoldable pub main : System → Libc → Host → ℕ → List Str → List Str → ℕ → Machine → Result Started
unfolding find_fullpath start
main sys libc host fuel [] envs sloader_tls_offset k = err undefined_behaviour
main sys libc host fuel (argv0 ∷ args) envs sloader_tls_offset k = do
  fullpath ← find_fullpath sys argv0
  check (sys.exists fullpath)
  start sys libc host fuel fullpath (argv0 ∷ args) envs sloader_tls_offset k
