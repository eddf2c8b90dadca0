-- ===== src/Library.antt =====
-- FindLibrary and read_ldsoconf of dyn_loader.cc: where a library is looked for.
pub mod Search
pub mod Includes
pub mod Config
pub mod Grammar
use sloader.Base.{
  ℕ, zero, suc, ◌+◌, ◌^◌, Bool, true, false, ◌&&◌, ◌||◌, Option, none, some, List, [], ◌∷◌, ◌++◌,
  ltb, leb, ◌==◌, if◌then◌else◌, length, Str, codes, str_eq, starts_with, contains,
}
use sloader.Result.{Result, ok, err, aborted, out_of_fuel, include_loop, ◌>>=◌}
use sloader.System.{System}
use sloader.Binary.{filename}

-- `std::isspace`
unfoldable pub is_space : ℕ → Bool
is_space c = c == 32 || (leb 9 c && leb c 13)

unfoldable pub skip_spaces : Str → Str
unfolding is_space
skip_spaces [] = []
skip_spaces (c ∷ s) = if is_space c then skip_spaces s else c ∷ s

-- The characters up to the next space, and the rest.
unfoldable pub word_of : Str → Str × Str
unfolding is_space
word_of [] = ([], [])
word_of (c ∷ s) = let (w, rest) = word_of s in if is_space c then ([], c ∷ s) else (c ∷ w, rest)

-- `f >> head`: the word is empty at the end of the stream
unfoldable pub next_word : Str → Str × Str
unfolding skip_spaces word_of
next_word s = word_of (skip_spaces s)

-- `std::getline`
unfoldable pub skip_line : Str → Str
skip_line [] = []
skip_line (c ∷ s) = if c == 10 then s else skip_line s

-- The tests on `head`: what to do at the end of the stream, at a comment, at an `include`, and at a
-- directory.
unfoldable pub by_head {ℓ} : {A : Type ℓ} → Str → A → A → A → A → A
by_head [] at_end comment include directory = at_end
by_head (c ∷ w) at_end comment include directory =
    if c == b'#' then comment else (if str_eq (c ∷ w) (codes "include") then include else directory)

-- The `while` loop over the words of one file, with the recursive call for included files.
unfoldable pub ldsoconf_words :
    System → (List Str → List Str → Result (List Str)) → ℕ → List Str → Str → Result (List Str)
unfolding next_word skip_line by_head
ldsoconf_words sys read_all zero res text = err (out_of_fuel include_loop)
ldsoconf_words sys read_all (suc fuel) res text =
    let (head, rest) = next_word text in
    let comment = ldsoconf_words sys read_all fuel res (skip_line rest) in
    let (descendants, rest') = next_word rest in
    let include : Result (List Str) = (do
      res' ← read_all res (sys.glob descendants)
      ldsoconf_words sys read_all fuel res' rest') in
    let directory = ldsoconf_words sys read_all fuel (res ++ (head ∷ [])) rest in
    by_head head (ok res) comment include directory

-- The `for` loop over the files that `glob` found.
unfoldable pub include_all :
    (List Str → Str → Result (List Str)) → List Str → List Str → Result (List Str)
include_all read res [] = ok res
include_all read res (f ∷ fs) = do res' ← read res f; include_all read res' fs

-- `read_ldsoconf_dfs`, to a depth of nested includes. Each round of the loop over words takes a
-- character at least.
unfoldable pub read_ldsoconf_dfs : System → ℕ → List Str → Str → Result (List Str)
unfolding ldsoconf_words include_all contains
read_ldsoconf_dfs sys zero res name = err (out_of_fuel include_loop)
read_ldsoconf_dfs sys (suc depth) res name =
    let read = read_ldsoconf_dfs sys depth in
    elim (sys.read_file name) [
      | none ↦ ok res
      | some text ↦
          if contains name (codes "i386") || contains name (codes "lib32")
          then ok res
          else ldsoconf_words sys (include_all read) (length text + 1) res text
    ]

-- More nested files than a process can have open.
abbrev pub include_depth : ℕ
include_depth = 2 ^ 20

unfoldable pub read_ldsoconf : System → Result (List Str)
unfolding read_ldsoconf_dfs
read_ldsoconf sys = read_ldsoconf_dfs sys include_depth [] (codes "/etc/ld.so.conf")

-- `is_absolute()`
unfoldable pub is_absolute : Str → Bool
is_absolute [] = false
is_absolute (c ∷ s) = c == b'/'

-- `dir / name` for a relative name
unfoldable pub join_from : Str → Str → Str
join_from [] name = b'/' ∷ name
join_from (c ∷ []) name = if c == b'/' then c ∷ name else c ∷ b'/' ∷ name
join_from (c ∷ d ∷ dir) name = c ∷ join_from (d ∷ dir) name

unfoldable pub join : Str → Str → Str
unfolding join_from
join [] name = name
join (c ∷ dir) name = join_from (c ∷ dir) name

-- The environment variable, then the two paths of the binary, ld.so.conf and the fixed directories.
unfoldable pub library_directories : System → Option Str → Option Str → List Str → List Str
library_directories sys runpath rpath ldsoconfs =
    let from_env : List Str = elim (sys.getenv (codes "SLOADER_LIBRARY_PATH")) [
      | none ↦ []
      | some [] ↦ []
      | some (c ∷ s) ↦ (c ∷ s) ∷ []
    ] in
    let optional : Option Str → List Str = λ o. elim o [ none ↦ [] | some d ↦ d ∷ [] ] in
    from_env
    ++ (optional runpath
        ++ (optional rpath
            ++ (ldsoconfs
                ++ (codes "/lib"
                    ∷ codes "/usr/lib"
                    ∷ codes "/usr/lib64"
                    ∷ codes "/usr/lib/x86_64-linux-gnu"
                    ∷ codes "."
                    ∷ []))))

-- The loop over the entries of a directory.
unfoldable pub first_entry : Str → List Str → Option Str
unfolding starts_with
first_entry searching [] = none
first_entry searching (name ∷ rest) =
    if starts_with name searching then some name else first_entry searching rest

-- The loop over the directories.
unfoldable pub search_directories : System → Str → List Str → Option Str
unfolding first_entry join
search_directories sys searching [] = none
search_directories sys searching (d ∷ rest) =
    let later = search_directories sys searching rest in
    if sys.is_directory d
    then elim (first_entry searching (sys.list_directory d)) [
      | none ↦ later
      | some name ↦ some (join d name)
    ]
    else later

-- Nothing found is fatal.
unfoldable pub or_abort : Option Str → Result Str
or_abort none = err aborted
or_abort (some path) = ok path

unfoldable pub find_library : System → Str → Option Str → Option Str → Result Str
unfolding is_absolute read_ldsoconf library_directories search_directories or_abort filename
find_library sys library_name runpath rpath =
    if is_absolute library_name && sys.exists library_name then ok library_name else (do
      ldsoconfs ← read_ldsoconf sys
      let dirs = library_directories sys runpath rpath ldsoconfs
      or_abort (search_directories sys (filename library_name) dirs))
