-- ===== src/Dl/Extends.antt =====
-- What dlopen keeps of the loader.
use sloader.Base.{ℕ, ◌≡◌, sym, Option, none, some, [], append-nil, Str}
use sloader.Result.{ok}
use sloader.Result.Ensures.{Ensures, returns, fails, bind, bind_any, branch, outcome}
use sloader.System.{System, Machine}
use sloader.Memory.{Mem}
use sloader.Binary.{filename}
use sloader.Library.{find_library}
use sloader.Loader.{DynLoader}
use sloader.Loader.Queue.Extends.{Extends, Extends-trans, load_depending_libs-Extends}
use sloader.Loader.Relocate.{Libc, relocate_binaries, relocate}
use sloader.Execute.Run.{get_dyn_loader}
use sloader.Dl.{sloader_dlopen}

relocate-Extends :
    (libc : Libc) (l : DynLoader) (m : Mem)
    → Ensures (λ (p : DynLoader × Mem). Extends l p.0) (relocate libc l m)
unfolding relocate
relocate-Extends libc l m =
    bind_any (relocate_binaries libc l.binaries l.binaries l.relocated m)
      λ r. returns (record { added = []; binaries = sym (append-nil l.binaries) })

-- The loader before and after a call of dlopen.
pub data Kept : Option DynLoader → Option DynLoader → Type 0 where
  untouched : (o : Option DynLoader) → Kept o o
  extended : {l l' : DynLoader} → Extends l l' → Kept (some l) (some l')

-- A call of dlopen that returns leaves the loader as it is or adds binaries behind those it has.
pub sloader_dlopen-Kept :
    (sys : System) (libc : Libc) (fuel : ℕ) (filename : Option Str)
    (dynloader after : Option DynLoader) (k k' : Machine) (handle : ℕ)
    → sloader_dlopen sys libc fuel filename dynloader k ≡ ok (handle, after, k')
    → Kept dynloader after
unfolding sloader_dlopen get_dyn_loader
sloader_dlopen-Kept sys libc fuel filename dynloader after k k' handle h =
    outcome (λ (p : ℕ × Option DynLoader × Machine). Kept dynloader p.1) _ _
      (run filename dynloader) h
  where
    run :
        (filename : Option Str) (dynloader : Option DynLoader)
        → Ensures
            (λ (p : ℕ × Option DynLoader × Machine). Kept dynloader p.1)
            (sloader_dlopen sys libc fuel filename dynloader k)
    run none dynloader = returns (untouched dynloader)
    run (some name) none = branch _ (returns (untouched none)) fails
    run (some name) (some l) = branch _ (returns (untouched (some l))) (
        bind_any (find_library sys name none none) λ path.
          bind (load_depending_libs-Extends sys fuel path l k) λ p e.
            bind (relocate-Extends libc p.0 p.1.mem) λ q f. returns (extended (Extends-trans e f)))
