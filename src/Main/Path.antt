-- ===== src/Main/Path.antt =====
-- The search of PATH.
use sloader.Base.{
  ◌≡◌, ◌∙◌, ap, Bool, true, false, Bool-cases, inl, inr, ◌&&◌, ◌||◌, none, some, List, [], ◌∷◌,
  ◌++◌, Str, codes, contains, if◌then◌else◌, arith, All,
}
use sloader.Result.{ok, ◌>>=◌, >>=-continue}
use sloader.System.{System}
use sloader.Utils.Split.{find?}
use sloader.Utils.Split.Laws.{joined, split_with-pieces}
use sloader.Library.{join}
use sloader.Main.{find_in_path, starts_with_dot, path_dirs, find_fullpath}

-- The first directory of the list that has the file gives the path; the empty path stands for none.
pub data FoundIn (sys : System) (name : Str) : List Str → Str → Type 0 where
  nowhere : FoundIn sys name [] []
  here :
      {d : Str} {rest : List Str}
      → (sys.exists (join d name) && sys.is_regular_file (join d name)) ≡ true
      → FoundIn sys name (d ∷ rest) (join d name)
  later :
      {d : Str} {rest : List Str} {p : Str}
      → (sys.exists (join d name) && sys.is_regular_file (join d name)) ≡ false
      → FoundIn sys name rest p
      → FoundIn sys name (d ∷ rest) p

find_in_path-FoundIn :
    (sys : System) (name : Str) (dirs : List Str)
    → FoundIn sys name dirs (find_in_path sys name dirs)
unfolding find_in_path
find_in_path-FoundIn sys name [] = nowhere
find_in_path-FoundIn sys name (d ∷ rest) =
    elim (Bool-cases (sys.exists (join d name) && sys.is_regular_file (join d name))) [
      | inl e ↦ rw e (here e)
      | inr e ↦ rw e (later e (find_in_path-FoundIn sys name rest))
    ]

-- If the program's name has no slash and does not begin with a dot, and PATH is set, the file is the
-- first regular one among the directories of PATH that a colon follows, or the empty path; the
-- directory after the last colon is never looked at. The directories are the parts of PATH between
-- its colons: no colon is in one of them.
pub find_fullpath-FoundIn :
    (sys : System) (name path : Str)
    → (starts_with_dot name || contains name (codes "/")) ≡ false
    → sys.getenv (codes "PATH") ≡ some path
    → (dirs : List Str) × (last : Str) × (fullpath : Str) × (path ≡ joined dirs (codes ":") ++ last)
      × All (λ d. find? d (codes ":") ≡ none) dirs
      × (find? last (codes ":") ≡ none)
      × (find_fullpath sys name ≡ ok fullpath)
      × FoundIn sys name dirs fullpath
unfolding find_fullpath path_dirs
find_fullpath-FoundIn sys name path plain env =
    let (dirs, last, run, text, pieces, ended) = split_with-pieces path (codes ":") (omega arith) in
    let p = find_in_path sys name dirs in
    let split : path_dirs (sys.getenv (codes "PATH")) ≡ ok dirs = ap path_dirs env ∙ run in
    (
      dirs,
      last,
      p,
      text,
      pieces,
      ended,
      ap
            (λ (c : Bool).
              if c
              then ok name
              else (path_dirs (sys.getenv (codes "PATH")) >>= λ ds. ok (find_in_path sys name ds)))
            plain
          ∙ >>=-continue split _,
      find_in_path-FoundIn sys name dirs,
    )
