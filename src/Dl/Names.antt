-- ===== src/Dl/Names.antt =====
-- What dlsym gives for a name, and when it ends the process.
use sloader.Base.{ℕ, ◌≡◌, refl, Option, none, some, Str, false}
use sloader.Base.Words.{add64}
use sloader.Result.{Result, ok, err, check_failed}
use sloader.Memory.{Mem}
use sloader.Elf.{Elf64Sym}
use sloader.Binary.{ElfBinary}
use sloader.Loader.{DynLoader}
use sloader.Loader.Symbols.{is_defined, is_weak_undefined, search_sym}
use sloader.Loader.Symbols.First.{Entry, NoneFits, Resolves, search_sym-Resolves}
use sloader.Loader.Relocate.Stuck.{at_index-some}
use sloader.Loader.Relocate.Resolve.{Resolves-Entry, get_symbol_addr-ok}
use sloader.Execute.Run.{get_dyn_loader}
use sloader.Dl.{value, sloader_dlsym}

-- The outcomes of a call of dlsym.
pub data Address (m : Mem) (symbol : Str) : Option DynLoader → Result ℕ → Type 0 where
  no_loader : Address m symbol none (err check_failed)
  of_symbol :
      (l : DynLoader) (i j : ℕ) (b : ElfBinary) (s : Elf64Sym)
      → Resolves m l.binaries symbol 0 (some (i, j))
      → Entry l.binaries i j b s
      → Address m symbol (some l) (ok (add64 s.st_value b.base_addr))
  unknown :
      (l : DynLoader)
      → NoneFits (is_defined m symbol) 0 l.binaries
      → NoneFits (is_weak_undefined m symbol) 0 l.binaries
      → Address m symbol (some l) (err check_failed)

found-Address :
    (m : Mem) (symbol : Str) (l : DynLoader) (o : Option (ℕ × ℕ))
    → search_sym m l.binaries symbol false ≡ o
    → Resolves m l.binaries symbol 0 o
    → Address m symbol (some l) (sloader_dlsym m symbol (some l))
unfolding sloader_dlsym get_dyn_loader value
found-Address m symbol l none e (d, w) = rw e (unknown l d w)
found-Address m symbol l (some (i, j)) e h =
    let (b, s, entry) = Resolves-Entry m l.binaries symbol 0 i j h in
    rw (e, at_index-some l.binaries i entry.binary, get_symbol_addr-ok b j s entry.symbol)
      (of_symbol l i j b s h entry)

-- A call of dlsym gives the address of the symbol that SearchSym promises for the name among the loaded
-- binaries. A failing check ends the process if there is no such symbol, even where libc has the name,
-- and if there is no loader.
pub sloader_dlsym-Address :
    (m : Mem) (symbol : Str) (dynloader : Option DynLoader)
    → Address m symbol dynloader (sloader_dlsym m symbol dynloader)
unfolding sloader_dlsym get_dyn_loader
sloader_dlsym-Address m symbol none = no_loader
sloader_dlsym-Address m symbol (some l) =
    found-Address m symbol l (search_sym m l.binaries symbol false) refl
      (search_sym-Resolves m l.binaries symbol false)
