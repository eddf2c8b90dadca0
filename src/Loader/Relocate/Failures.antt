-- ===== src/Loader/Relocate/Failures.antt =====
-- When DynLoader::Relocate ends the process: at the first relocation that cannot be applied.
use sloader.Base.{
  ◌≡◌, ◌∙◌, sym, ap, refl, ◌↔◌, List, [], ◌∷◌, ◌++◌, map, Str, elem, Bool-cases, inl, inr,
  if◌then◌else◌,
}
use sloader.Result.{Failure, Result, ok, err, >>=-continue, >>=-split, Result-cases, ◌>>=◌}
use sloader.Result.Ends.{reason}
use sloader.Memory.{Mem}
use sloader.Elf.{Elf64Rela}
use sloader.Binary.{ElfBinary}
use sloader.Loader.{DynLoader}
use sloader.Loader.Relocate.{Libc, relocate_rela, relocate_relas, relocate_binaries, relocate}
use sloader.Loader.Relocate.Stuck.{Stuck, Stuck-fails}
use sloader.Loader.Relocate.Outcomes.{relocate_rela-Ends}

-- The relocations of the binaries whose paths are not marked yet, in order: those of the procedure
-- linkage table first. Of two binaries with one path the first counts.
unfoldable pub pending : List Str → List ElfBinary → List (ElfBinary × Elf64Rela)
pending relocated [] = []
pending relocated (b ∷ todo) =
    let here = map (λ (r : Elf64Rela). (b, r)) (b.pltrelas ++ b.relas) in
    if elem b.path relocated
    then pending relocated todo
    else here ++ pending (b.path ∷ relocated) todo

module _ (libc : Libc) (bins : List ElfBinary) where
  -- The first relocation that cannot be applied, when the ones before it have been.
  pub data StopsAt : List (ElfBinary × Elf64Rela) → Mem → Failure → Type 0 where
    here :
        (b : ElfBinary) (r : Elf64Rela) (rest : List (ElfBinary × Elf64Rela)) (m : Mem)
        (failure : Failure)
        → Stuck libc bins b r m failure
        → StopsAt ((b, r) ∷ rest) m failure
    later :
        (b : ElfBinary) (r : Elf64Rela) (rest : List (ElfBinary × Elf64Rela)) (m m1 : Mem)
        (failure : Failure)
        → relocate_rela libc bins b r m ≡ ok m1
        → StopsAt rest m1 failure
        → StopsAt ((b, r) ∷ rest) m failure

  -- The relocations of a list, one after the other.
  unfoldable relocate_each : List (ElfBinary × Elf64Rela) → Mem → Result Mem
  relocate_each [] m = ok m
  relocate_each ((b, r) ∷ rest) m = relocate_rela libc bins b r m >>= λ m1. relocate_each rest m1

  relocate_each-fails :
      (rs : List (ElfBinary × Elf64Rela)) (m : Mem) (failure : Failure)
      → relocate_each rs m ≡ err failure
      → StopsAt rs m failure
  unfolding relocate_each
  relocate_each-fails [] m failure h = cc
  relocate_each-fails ((b, r) ∷ rest) m failure h =
      elim (Result-cases (relocate_rela libc bins b r m)) [
        | inl (m1, e) ↦
            later b r rest m m1 failure e
              (relocate_each-fails rest m1 failure (sym (>>=-continue e _) ∙ h))
        | inr (f, e) ↦
            let same : ◌≡◌ {A = Result Mem} (err f) (err failure) =
              ap (λ (x : Result Mem). x >>= λ m1. relocate_each rest m1) (sym e) ∙ h in
            here b r rest m failure (reason (relocate_rela-Ends libc bins b r m) (e ∙ same))
      ]

  StopsAt-fails :
      (rs : List (ElfBinary × Elf64Rela)) (m : Mem) (failure : Failure)
      → StopsAt rs m failure
      → relocate_each rs m ≡ err failure
  unfolding relocate_each
  StopsAt-fails rs m failure (here b r rest m0 f why) =
      ap (λ (x : Result Mem). x >>= λ m1. relocate_each rest m1) (Stuck-fails libc bins b r m f why)
  StopsAt-fails rs m failure (later b r rest m0 m1 f e h) =
      >>=-continue e _ ∙ StopsAt-fails rest m1 f h

  relocate_relas-each :
      (b : ElfBinary) (rs : List Elf64Rela) (rest : List (ElfBinary × Elf64Rela)) (m : Mem)
      → relocate_each (map (λ (r : Elf64Rela). (b, r)) rs ++ rest) m
        ≡ (relocate_relas libc bins b rs m >>= λ m1. relocate_each rest m1)
  unfolding relocate_each relocate_relas
  relocate_relas-each b [] rest m = refl
  relocate_relas-each b (r ∷ rs) rest m =
      >>=-split (relocate_rela libc bins b r m) _ _ (λ m1. relocate_each rest m1)
        (λ m1. relocate_relas-each b rs rest m1)

  relocate_binaries-each :
      (todo : List ElfBinary) (relocated : List Str) (m : Mem)
      → relocate_each (pending relocated todo) m
        ≡ (relocate_binaries libc bins todo relocated m >>= λ p. ok p.1)
  unfolding relocate_each pending relocate_binaries
  relocate_binaries-each [] relocated m = refl
  relocate_binaries-each (b ∷ todo) relocated m = elim (Bool-cases (elem b.path relocated)) [
    | inl e ↦ rw (e, pending, relocate_binaries) (relocate_binaries-each todo relocated m)
    | inr e ↦
        rw (e, pending, relocate_binaries)
          (relocate_relas-each b (b.pltrelas ++ b.relas) (pending (b.path ∷ relocated) todo) m
            ∙ >>=-split (relocate_relas libc bins b (b.pltrelas ++ b.relas) m) _ _ (λ p. ok p.1)
                (λ m1. relocate_binaries-each todo (b.path ∷ relocated) m1))
  ]

-- A last step that returns adds no failure and hides none.
same_failure {ℓ κ} :
    {A : Type ℓ} {B : Type κ} (m : Result A) (f : A → B) (failure : Failure)
    → ((m >>= λ a. ok (f a)) ≡ err failure) ↔ (m ≡ err failure)
same_failure {A} {B} (ok a) f failure = (
  λ (h : ◌≡◌ {A = Result B} (ok (f a)) (err failure)). cc,
  λ (h : ◌≡◌ {A = Result A} (ok a) (err failure)). cc,
)
same_failure {A} {B} (err e) f failure = (
  λ (h : ◌≡◌ {A = Result B} (err e) (err failure)). cc,
  λ (h : ◌≡◌ {A = Result A} (err e) (err failure)). cc,
)

-- Relocate ends the process exactly if, among the relocations of the binaries that are not marked, in
-- order, there is a first one that cannot be applied: its symbol is not in the table, its type is
-- unknown, there is nothing to copy, or its thread-local variable is not there.
pub relocate-StopsAt :
    (libc : Libc) (l : DynLoader) (m : Mem) (failure : Failure)
    → (relocate libc l m ≡ err failure)
      ↔ StopsAt libc l.binaries (pending l.relocated l.binaries) m failure
unfolding relocate
relocate-StopsAt libc l m failure =
    let run = relocate_binaries libc l.binaries l.binaries l.relocated m in
    let each = relocate_binaries-each libc l.binaries l.binaries l.relocated m in
    let whole = same_failure run (λ p. (record l { relocated = p.0 }, p.1)) failure in
    let last = same_failure run (λ p. p.1) failure in
    (
      λ h. relocate_each-fails libc l.binaries _ m failure (each ∙ last.1 (whole.0 h)),
      λ h. whole.1 (last.0 (sym each ∙ StopsAt-fails libc l.binaries _ m failure h)),
    )
