-- ===== src/Library/Search.antt =====
-- Which file FindLibrary takes.
use sloader.Base.{
  ◌≡◌, Option, none, some, List, [], ◌∷◌, ◌++◌, if◌then◌else◌, Str, starts_with, map, ℕ, true,
  codes,
}
use sloader.Result.{Failure, Result, ok, err, aborted}
use sloader.System.{System}
use sloader.Binary.{filename}
use sloader.Library.{join, read_ldsoconf}

-- The entries whose names begin with `searching`.
unfoldable matching : Str → List Str → List Str
matching searching [] = []
matching searching (name ∷ rest) =
    if starts_with name searching then name ∷ matching searching rest else matching searching rest

-- Every file that would do, in the order of the directories and of their entries.
unfoldable pub candidates : System → Str → List Str → List Str
unfolding matching
candidates sys searching [] = []
candidates sys searching (d ∷ rest) =
    (if sys.is_directory d then map (join d) (matching searching (sys.list_directory d)) else [])
    ++ candidates sys searching rest

unfoldable pub first {ℓ} : {A : Type ℓ} → List A → Option A
first [] = none
first (x ∷ xs) = some x

-- The directories that are looked through, in order: the one of SLOADER_LIBRARY_PATH if it is set and
-- not empty, the RUNPATH and the RPATH of the binary that asks, those of ld.so.conf, and the fixed ones.
pub data Given : Option Str → List Str → Type 0 where
  unset : Given none []
  set : (d : Str) → Given (some d) (d ∷ [])

pub data FromEnv : Option Str → List Str → Type 0 where
  unset : FromEnv none []
  empty : FromEnv (some []) []
  set : (c : ℕ) (d : Str) → FromEnv (some (c ∷ d)) ((c ∷ d) ∷ [])

abbrev pub fixed_directories : List Str
fixed_directories =
    codes "/lib"
    ∷ codes "/usr/lib"
    ∷ codes "/usr/lib64"
    ∷ codes "/usr/lib/x86_64-linux-gnu"
    ∷ codes "."
    ∷ []

pub record Searched (sys : System) (runpath rpath : Option Str) (confs dirs : List Str)
    : Type 0 where
  pub from_env : List Str
  pub from_runpath : List Str
  pub from_rpath : List Str
  pub env : FromEnv (sys.getenv (codes "SLOADER_LIBRARY_PATH")) from_env
  pub run : Given runpath from_runpath
  pub rp : Given rpath from_rpath
  pub in_order : dirs ≡ from_env ++ (from_runpath ++ (from_rpath ++ (confs ++ fixed_directories)))

-- How a call of FindLibrary ends.
pub data Found (sys : System) (name : Str) (runpath rpath : Option Str) : Result Str → Type 0 where
  itself :
      (rest : Str)
      → name ≡ b'/' ∷ rest
      → sys.exists name ≡ true
      → Found sys name runpath rpath (ok name)
  no_configuration :
      (e : Failure) → read_ldsoconf sys ≡ err e → Found sys name runpath rpath (err e)
  taken :
      (confs dirs : List Str) (path : Str) (others : List Str)
      → read_ldsoconf sys ≡ ok confs
      → Searched sys runpath rpath confs dirs
      → candidates sys (filename name) dirs ≡ path ∷ others
      → Found sys name runpath rpath (ok path)
  nowhere :
      (confs dirs : List Str)
      → read_ldsoconf sys ≡ ok confs
      → Searched sys runpath rpath confs dirs
      → candidates sys (filename name) dirs ≡ []
      → Found sys name runpath rpath (err aborted)
