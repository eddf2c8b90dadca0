-- ===== src/Execute/Run/Reaches.antt =====
-- DynLoader::Run reaches the jump into the program: what the files, the relocations and the process
-- need to be like.
use sloader.Base.{ℕ, ◌*◌, ◌^◌, ◌<◌, ◌≤◌, ◌≡◌, ◌∙◌, inl, inr, subst, refl, List, Str, length, All}
use sloader.Result.{Failure, ok, ok-injective, >>=-continue, >>=-eq-ok, Result-cases}
use sloader.System.{System, Machine}
use sloader.Memory.{Mem}
use sloader.Binary.{ElfBinary}
use sloader.Loader.{DynLoader, load_depending_libs}
use sloader.Loader.Relocate.{Libc, relocate_binaries, relocate}
use sloader.Loader.Relocate.Failures.{StopsAt, pending, relocate-StopsAt}
use sloader.Execute.Run.{Host, Started, run}
use sloader.Execute.Run.Begin.{Startable, program_stack, RunsFrom, execute-RunsFrom}

-- Every pending relocation can be applied, the ones before it having been.
unfoldable pub AllApply : Libc → DynLoader → Mem → Type 0
AllApply libc l m =
    (failure : Failure) → ¬ (StopsAt libc l.binaries (pending l.relocated l.binaries) m failure)

-- Relocate only marks paths.
relocate_marks :
    (libc : Libc) (l l2 : DynLoader) (m m2 : Mem)
    → relocate libc l m ≡ ok (l2, m2)
    → (after : List Str) × (l2 ≡ record l { relocated = after })
unfolding relocate
relocate_marks libc l l2 m m2 h =
    let ((after, m1), run, e) =
      >>=-eq-ok (relocate_binaries libc l.binaries l.binaries l.relocated m) _ h in
    subst (λ (p : DynLoader × Mem). (after : List Str) × (p.0 ≡ record l { relocated = after }))
      (ok-injective e) (after, refl)

relocate-returns :
    (libc : Libc) (l : DynLoader) (m : Mem)
    → AllApply libc l m
    → (after : List Str) × (m2 : Mem) × (relocate libc l m
        ≡ ok (record l { relocated = after }, m2))
unfolding AllApply
relocate-returns libc l m h = elim (Result-cases (relocate libc l m)) [
  | inr (failure, e) ↦ absurd (h failure ((relocate-StopsAt libc l m failure).0 e))
  | inl ((l2, m2), e) ↦
      let (after, same) = relocate_marks libc l l2 m m2 e in
      (after, m2, subst (λ (l3 : DynLoader). relocate libc l m ≡ ok (l3, m2)) same e)
]

-- Run has returned `s`: the paths marked and the memory after Relocate, and what the program finds.
pub record Starts (sys : System) (libc : Libc) (host : Host) (fuel : ℕ) (l : DynLoader) (offset : ℕ)
    (k : Machine) (l1 : DynLoader) (k1 : Machine) (main : ElfBinary) : Type 0 where
  pub s : Started
  pub reached : run sys libc host fuel l offset k ≡ ok s
  pub marked : List Str
  pub linked : Mem
  pub relocated : relocate libc l1 k1.mem ≡ ok (record l1 { relocated = marked }, linked)
  pub runs :
      RunsFrom sys host libc.space.block (record l1 { relocated = marked }) offset linked main s

Startable-marked :
    (sys : System) (host : Host) (l : DynLoader) (after : List Str)
    → Startable sys host l
    → Startable sys host (record l { relocated = after })
Startable-marked sys host l after ready = record {
  main = ready.main;
  libraries = ready.libraries;
  binaries = ready.binaries;
  arrays = ready.arrays;
  at_random = ready.at_random;
  tls_fits = ready.tls_fits;
}

-- If the libraries are loaded, every pending relocation can be applied, AT_RANDOM is there, the TLS
-- sizes pass the check, the init arrays are whole and kept by the initialisers, and the stack has room
-- for its words, Run reaches the jump: to the entry point of the first binary, with everything
-- relocated first, then the initialisers called in order, then the thread-local blocks placed, and the
-- initial stack of the ABI.
pub run-Starts :
    (sys : System) (libc : Libc) (host : Host) (fuel : ℕ) (l : DynLoader) (offset : ℕ) (k : Machine)
    (l1 : DynLoader) (k1 : Machine)
    → load_depending_libs sys fuel l.main_path l k ≡ ok (l1, k1)
    → AllApply libc l1 k1.mem
    → (ready : Startable sys host l1) → 8 * length (program_stack sys host l1) ≤ host.rsp
    → All (λ (v : ℕ). v < 2 ^ 64) (program_stack sys host l1)
    → Starts sys libc host fuel l offset k l1 k1 ready.main
unfolding run program_stack Startable-marked
run-Starts sys libc host fuel l offset k l1 k1 loading apply ready room small =
    let (after, m2, relocating) = relocate-returns libc l1 k1.mem apply in
    let (s, executing, runs) =
      execute-RunsFrom sys host libc.space.block (record l1 { relocated = after }) offset m2
        (Startable-marked sys host l1 after ready) room small in
    record {
      s = s;
      reached = >>=-continue loading _ ∙ (>>=-continue relocating _ ∙ executing);
      marked = after;
      linked = m2;
      relocated = relocating;
      runs = runs;
    }
