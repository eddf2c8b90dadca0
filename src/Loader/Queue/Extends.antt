-- ===== src/Loader/Queue/Extends.antt =====
-- LoadDependingLibs adds binaries behind those that there are.
use sloader.Base.{
  ℕ, ◌≡◌, ◌∙◌, sym, ap, refl, List, [], ◌∷◌, ◌++◌, append_assoc, append-nil, Str, elem, zero, suc,
}
use sloader.Result.{Result}
use sloader.Result.Ensures.{Ensures, returns, fails, bind, bind_any, branch}
use sloader.System.{System, Machine}
use sloader.Binary.{ElfBinary, elf_binary, filename}
use sloader.Binary.Load.{load}
use sloader.Library.{find_library}
use sloader.Loader.{
  DynLoader, Request, requests, load_binary, load_request, is_skipped, load_loop,
  load_depending_libs,
}

-- The binaries of `l` stand first in those of `l'`.
pub record Extends (l l' : DynLoader) : Type 0 where
  pub added : List ElfBinary
  pub binaries : l'.binaries ≡ l.binaries ++ added

Extends-refl : (l : DynLoader) → Extends l l
Extends-refl l = record { added = []; binaries = sym (append-nil l.binaries) }

pub Extends-trans : {l1 l2 l3 : DynLoader} → Extends l1 l2 → Extends l2 l3 → Extends l1 l3
Extends-trans {l1} e f = record {
  added = e.added ++ f.added;
  binaries =
      f.binaries
      ∙ (ap (λ (bs : List ElfBinary). bs ++ f.added) e.binaries
          ∙ append_assoc l1.binaries e.added f.added);
}

widen :
    {l l1 : DynLoader} {m : Result (DynLoader × Machine)}
    → Extends l l1
    → Ensures (λ (p : DynLoader × Machine). Extends l1 p.0) m
    → Ensures (λ (p : DynLoader × Machine). Extends l p.0) m
widen e (returns f) = returns (Extends-trans e f)
widen e fails = fails

module _ (sys : System) where
  load_binary-Extends :
      (path : Str) (l : DynLoader) (k : Machine)
      → Ensures (λ (p : ElfBinary × DynLoader × Machine). Extends l p.1) (load_binary sys path l k)
  unfolding load_binary
  load_binary-Extends path l k = bind_any (elf_binary sys path) λ b.
      bind_any (load sys b l.next_base_addr k)
        λ r. returns (record { added = r.0 ∷ []; binaries = refl })

  load_request-Extends :
      (r : Request) (l : DynLoader) (k : Machine)
      → Ensures (λ (p : List Request × DynLoader × Machine). Extends l p.1) (load_request sys r l k)
  unfolding load_request
  load_request-Extends r l k =
      let l0 : DynLoader = record l { loaded = r.library_name ∷ l.loaded } in
      branch (is_skipped r.library_name)
        (returns (record { added = []; binaries = sym (append-nil l.binaries) }))
        (bind_any (find_library sys r.library_name r.runpath r.rpath) λ path.
          bind (load_binary-Extends path l0 k)
            λ p e. returns (record { added = e.added; binaries = e.binaries }))

  pub load_loop-Extends :
      (fuel : ℕ) (queue : List Request) (l : DynLoader) (k : Machine)
      → Ensures (λ (p : DynLoader × Machine). Extends l p.0) (load_loop sys fuel queue l k)
  unfolding load_loop
  load_loop-Extends zero queue l k = fails
  load_loop-Extends (suc fuel) [] l k = returns (Extends-refl l)
  load_loop-Extends (suc fuel) (r ∷ queue) l k =
      branch (elem r.library_name l.loaded) (load_loop-Extends fuel queue l k) (
        bind (load_request-Extends r l k)
          λ p e. widen e (load_loop-Extends fuel (queue ++ p.0) p.1 p.2))

  pub load_depending_libs-Extends :
      (fuel : ℕ) (path : Str) (l : DynLoader) (k : Machine)
      → Ensures (λ (p : DynLoader × Machine). Extends l p.0) (load_depending_libs sys fuel path l k)
  unfolding load_depending_libs
  load_depending_libs-Extends fuel path l k = bind (load_binary-Extends path l k) λ p e.
      widen (record { added = e.added; binaries = e.binaries })
        (load_loop-Extends fuel (requests p.0) (record p.1 { loaded = filename path ∷ p.1.loaded })
          p.2)
