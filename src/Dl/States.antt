-- ===== src/Dl/States.antt =====
-- The loader of the process over time: the start of the program, then calls of dlopen.
use sloader.Base.{ℕ, ◌≡◌, Option, none, some, List, Str}
use sloader.Result.{ok}
use sloader.Result.Ensures.{Ensures, returns, bind, bind_any, branch, outcome, when_ok}
use sloader.System.{System, Machine}
use sloader.Memory.{Mem}
use sloader.Library.{find_library}
use sloader.Loader.{DynLoader, dyn_loader, load_depending_libs}
use sloader.Loader.Queue.Closed.{AllLoaded, load_depending_libs-AllLoaded}
use sloader.Loader.Relocate.{Libc, relocate}
use sloader.Loader.Relocate.Once.{Marked, Relocated, relocate-Relocated}
use sloader.Execute.Run.{get_dyn_loader}
use sloader.Dl.{sloader_dlopen}

module _ (sys : System) (libc : Libc) where
  -- The global loader and the machine: when the program starts, and after calls of dlopen that return.
  pub data Reached : Option DynLoader → Machine → Type 0 where
    started :
        (main_path : Str) (args envs : List Str) (fuel : ℕ) (k k1 : Machine) (l1 l2 : DynLoader)
        (m : Mem)
        → load_depending_libs sys fuel main_path (dyn_loader main_path args envs) k ≡ ok (l1, k1)
        → relocate libc l1 k1.mem ≡ ok (l2, m)
        → Reached (some l2) (record k1 { mem = m })
    -- The program runs and writes what it likes; the loader is not in its reach.
    ran :
        (before : Option DynLoader) (k : Machine) (m : Mem)
        → Reached before k
        → Reached before (record k { mem = m })
    opened :
        (filename : Option Str) (fuel handle : ℕ) (before after : Option DynLoader) (k k1 : Machine)
        → Reached before k
        → sloader_dlopen sys libc fuel filename before k ≡ ok (handle, after, k1)
        → Reached after k1

-- There is a loader, every name that its binaries need is in `loaded_`, and every binary's path is
-- marked as relocated.
pub data Linked : Option DynLoader → Type 0 where
  linked : (l : DynLoader) → AllLoaded l → Marked l.relocated l.binaries → Linked (some l)

relocated-Linked :
    (libc : Libc) (l l' : DynLoader) (m m' : Mem)
    → AllLoaded l
    → relocate libc l m ≡ ok (l', m')
    → Linked (some l')
relocated-Linked libc l l' m m' h e =
    let r : Relocated l l' = relocate-Relocated libc l l' m m' e in
    linked l' (rw (r.binaries, r.loaded) h) r.marked

abbrev LinkedAfter : ℕ × Option DynLoader × Machine → Type 0
LinkedAfter p = Linked p.1

dlopen-Linked :
    (sys : System) (libc : Libc) (fuel : ℕ) (filename : Option Str) (before : Option DynLoader)
    (k : Machine)
    → Linked before
    → Ensures LinkedAfter (sloader_dlopen sys libc fuel filename before k)
unfolding sloader_dlopen get_dyn_loader
dlopen-Linked sys libc fuel none before k h = returns h
dlopen-Linked sys libc fuel (some name) none k h = elim h [ ]
dlopen-Linked sys libc fuel (some name) (some l) k (linked l0 loaded marked) =
    branch _ (returns (linked l0 loaded marked)) (
      bind_any (find_library sys name none none) λ path.
        bind
          (when_ok (load_depending_libs sys fuel path l k)
            (λ r e. load_depending_libs-AllLoaded sys fuel path l r.0 k r.1 e loaded))
          (λ r all.
            bind
              (when_ok (relocate libc r.0 r.1.mem)
                (λ s e. relocated-Linked libc r.0 s.0 r.1.mem s.1 all e))
              (λ s done. returns done)))

-- From the start of the program on, whatever it writes and whichever files it opens, there is a loader,
-- every name that its binaries need has been entered in `loaded_`, and the path of every binary is
-- marked as relocated.
pub Reached-Linked :
    (sys : System) (libc : Libc) (now : Option DynLoader) (k : Machine)
    → Reached sys libc now k
    → Linked now
unfolding dyn_loader
Reached-Linked sys libc now k (started main_path args envs fuel k0 k1 l1 l2 m load reloc) =
    relocated-Linked libc l1 l2 k1.mem m
      (load_depending_libs-AllLoaded sys fuel main_path (dyn_loader main_path args envs) l1 k0 k1
        load tt)
      reloc
Reached-Linked sys libc now k (ran before k0 m r) = Reached-Linked sys libc before k0 r
Reached-Linked sys libc now k (opened filename fuel handle before after k0 k1 r e) =
    outcome LinkedAfter (sloader_dlopen sys libc fuel filename before k0) (handle, after, k1)
      (dlopen-Linked sys libc fuel filename before k0 (Reached-Linked sys libc before k0 r)) e
