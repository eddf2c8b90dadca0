-- ===== src/Loader/Relocate/Once.antt =====
-- A binary is relocated once: a second call of Relocate does nothing.
use sloader.Base.{
  ◌≡◌, subst, refl, true, List, [], ◌∷◌, ◌++◌, arith, All, Str, elem, str_eq_refl, Bool-cases, inl,
  inr,
}
use sloader.Result.{ok, ok-injective, >>=-eq-ok}
use sloader.Memory.{Mem}
use sloader.Binary.{ElfBinary}
use sloader.Loader.{DynLoader}
use sloader.Loader.Relocate.{Libc, relocate_relas, relocate_binaries, relocate}

-- Every binary's path is marked.
abbrev pub Marked : List Str → List ElfBinary → Type 0
Marked relocated bins = All (λ b. elem b.path relocated ≡ true) bins

Marked-cons :
    (p : Str) (relocated : List Str) (bins : List ElfBinary)
    → Marked relocated bins
    → Marked (p ∷ relocated) bins
Marked-cons p relocated [] h = tt
Marked-cons p relocated (b ∷ bins) (e, h) = (ground arith, Marked-cons p relocated bins h)

-- Marks are never taken back.
abbrev Grows : List Str → List Str → Type 0
Grows before after = (p : Str) → elem p before ≡ true → elem p after ≡ true

module _ (libc : Libc) (bins : List ElfBinary) where
  -- Marked binaries are passed over.
  pub relocate_binaries-Marked :
      (todo : List ElfBinary) (relocated : List Str) (m : Mem)
      → Marked relocated todo
      → relocate_binaries libc bins todo relocated m ≡ ok (relocated, m)
  unfolding relocate_binaries
  relocate_binaries-Marked [] relocated m h = refl
  relocate_binaries-Marked (b ∷ todo) relocated m (e, h) =
      rw e (relocate_binaries-Marked todo relocated m h)

  relocate_binaries-marks :
      (todo : List ElfBinary) (relocated after : List Str) (m m' : Mem)
      → relocate_binaries libc bins todo relocated m ≡ ok (after, m')
      → Marked after todo × Grows relocated after
  unfolding relocate_binaries
  relocate_binaries-marks [] relocated after m m' h = (tt, ground arith)
  relocate_binaries-marks (b ∷ todo) relocated after m m' h =
      elim (Bool-cases (elem b.path relocated)) [
        | inl e ↦
            let (marked, grows) =
              relocate_binaries-marks todo relocated after m m' (rw (e, relocate_binaries) at h) in
            ((grows b.path e, marked), grows)
        | inr e ↦
            let (m1, run, rest) =
              >>=-eq-ok (relocate_relas libc bins b (b.pltrelas ++ b.relas) m) _
                (rw (e, relocate_binaries) at h) in
            let (marked, grows) =
              relocate_binaries-marks todo (b.path ∷ relocated) after m1 m' rest in
            (
              (grows b.path (ground (arith, str_eq_refl b.path)), marked),
              λ p i. grows p (ground arith),
            )
      ]

again :
    (libc : Libc) (l : DynLoader) (m m1 : Mem) (after : List Str)
    → relocate_binaries libc l.binaries l.binaries l.relocated m ≡ ok (after, m1)
    → relocate libc (record l { relocated = after }) m1 ≡ ok (record l { relocated = after }, m1)
unfolding relocate
again libc l m m1 after run =
    let marked =
      (relocate_binaries-marks libc l.binaries l.binaries l.relocated after m m1 run).0 in
    rw (relocate_binaries-Marked libc l.binaries l.binaries after m1 marked) refl

-- What Relocate returns: the binaries and `loaded_` as they were, and every path marked.
pub record Relocated (l l' : DynLoader) : Type 0 where
  pub binaries : l'.binaries ≡ l.binaries
  pub loaded : l'.loaded ≡ l.loaded
  pub marked : Marked l'.relocated l'.binaries

pub relocate-Relocated :
    (libc : Libc) (l l' : DynLoader) (m m' : Mem) → relocate libc l m ≡ ok (l', m') → Relocated l l'
unfolding relocate
relocate-Relocated libc l l' m m' h =
    let ((after, m1), run, e) =
      >>=-eq-ok (relocate_binaries libc l.binaries l.binaries l.relocated m) _ h in
    subst (λ (p : DynLoader × Mem). Relocated l p.0) (ok-injective e)
      (record {
        binaries = refl;
        loaded = refl;
        marked = (relocate_binaries-marks libc l.binaries l.binaries l.relocated after m m1 run).0;
      })

-- After Relocate has run, a second run succeeds, writes nothing and marks nothing.
pub relocate_twice :
    (libc : Libc) (l l' : DynLoader) (m m' : Mem)
    → relocate libc l m ≡ ok (l', m')
    → relocate libc l' m' ≡ ok (l', m')
unfolding relocate
relocate_twice libc l l' m m' h =
    let ((after, m1), run, e) =
      >>=-eq-ok (relocate_binaries libc l.binaries l.binaries l.relocated m) _ h in
    subst (λ (p : DynLoader × Mem). relocate libc p.0 p.1 ≡ ok p) (ok-injective e)
      (again libc l m m1 after run)
