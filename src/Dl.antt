-- ===== src/Dl.antt =====
-- sloader_dl.cc: dlopen and dlsym for the loaded program.
pub mod Extends
pub mod States
pub mod Names
use sloader.Base.{
  ℕ, ◌||◌, Bool, true, false, Option, none, some, List, [], ◌∷◌, ◌++◌, Str, codes, contains,
  if◌then◌else◌,
}
use sloader.Result.{Result, ok, err, check_failed, ◌>>=◌}
use sloader.System.{System, Machine}
use sloader.Memory.{Mem}
use sloader.Binary.{get_symbol_addr}
use sloader.Library.{find_library}
use sloader.Loader.{DynLoader, load_depending_libs}
use sloader.Loader.Symbols.{search_sym}
use sloader.Loader.Relocate.{Libc, at_index, relocate}
use sloader.Execute.Run.{get_dyn_loader}

-- `sloader_dlopen`, whose result is a handle, the loader and the memory; `none` is NULL. The object of
-- a call of a method comes before its argument.
unfoldable pub sloader_dlopen :
    System
    → Libc
    → ℕ
    → Option Str
    → Option DynLoader
    → Machine
    → Result (ℕ × Option DynLoader × Machine)
unfolding contains find_library get_dyn_loader load_depending_libs relocate
sloader_dlopen sys libc fuel none dynloader k = ok (0xabcdabcdabcdabcd, dynloader, k)
sloader_dlopen sys libc fuel (some filename) dynloader k =
    if contains filename (codes "ld-linux") || contains filename (codes "libc.so")
    then ok (0xaaaaaaaabbbbbbbb, dynloader, k)
    else (do
      l ← get_dyn_loader dynloader
      path ← find_library sys filename none none
      (l', k') ← load_depending_libs sys fuel path l k
      (l'', m) ← relocate libc l' k'.mem
      ok (0xdeadbeefdeadbeef, some l'', record k' { mem = m }))

-- `CHECK(opt)` and `opt.value()`
unfoldable pub value {ℓ} : {A : Type ℓ} → Option A → Result A
value none = err check_failed
value (some a) = ok a

-- `sloader_dlsym`; the handle is not looked at
unfoldable pub sloader_dlsym : Mem → Str → Option DynLoader → Result ℕ
unfolding get_dyn_loader search_sym value at_index get_symbol_addr
sloader_dlsym m symbol dynloader = do
  l ← get_dyn_loader dynloader
  (bin_index, sym_index) ← value (search_sym m l.binaries symbol false)
  b ← at_index l.binaries bin_index
  get_symbol_addr b sym_index
