-- ===== src/Execute/Tls/Bounds.antt =====
-- What the thread-local blocks of Execute may reach, and which programs have room for theirs.
use sloader.Base.{
  ℕ, ◌+◌, ◌-◌, ◌^◌, ◌<◌, ◌≤◌, ◌≡◌, ◌∙◌, ap, sym, subst, leb, inl, inr, List, [], ◌∷◌, Bool-cases,
  All, arith,
}
use sloader.Base.Words.{add64}
use sloader.Result.{Result, ok, err, check_failed}
use sloader.Memory.{Mem}
use sloader.Memory.Laws.{Outside}
use sloader.Binary.{ElfBinary}
use sloader.Execute.Tls.{tls_space, tls_block_size, place_tls, place_all, init_tls}
use sloader.Execute.Tls.Block.{FileFits}
use sloader.Execute.Tls.Image.{
  tls_total, tls_total-nil, tls_total-tls, tls_total-none, place_all-tls, place_all-none,
  place_all-Outside,
}

-- The loop that adds the sizes up does not wrap if their sum is a 64-bit number.
tls_block_size-total :
    (bins : List ElfBinary) (size : ℕ)
    → size + tls_total bins < 2 ^ 64
    → tls_block_size size bins ≡ size + tls_total bins
unfolding tls_block_size tls_total
tls_block_size-total [] size small = omega (arith, tls_total-nil)
tls_block_size-total (b ∷ bins) size small = elim (Bool-cases b.has_tls) [
  | inl e ↦
      let total = tls_total-tls b bins e in
      let sum : add64 size b.file_tls.p_memsz ≡ size + b.file_tls.p_memsz =
        omega (arith, small, total) in
      rw (e, sum)
        (tls_block_size-total bins (size + b.file_tls.p_memsz) (omega (arith, small, total))
          ∙ omega (arith, total))
  | inr e ↦
      let total = tls_total-none b bins e in
      rw e (tls_block_size-total bins size (omega (arith, small, total)) ∙ omega (arith, total))
]

-- Each block takes its size from the offset.
pub place_all-offset :
    (block : ℕ) (bins : List ElfBinary) (offset : ℕ) (m : Mem)
    → tls_total bins ≤ offset
    → offset < 2 ^ 64
    → (place_all block bins offset m).0 ≡ offset - tls_total bins
unfolding place_all
place_all-offset block [] offset m fits small = omega (arith, tls_total-nil)
place_all-offset block (b ∷ bins) offset m fits small = elim (Bool-cases b.has_tls) [
  | inl e ↦
      let total = tls_total-tls b bins e in
      ap (λ (r : ℕ × Mem). r.0)
        (place_all-tls block b bins offset m e (omega (arith, fits, total)) small)
      ∙ (place_all-offset block bins (offset - b.file_tls.p_memsz) (place_tls block b offset m)
            (omega (arith, fits, total)) (omega (arith, small))
          ∙ omega (arith, total))
  | inr e ↦
      let total = tls_total-none b bins e in
      ap (λ (r : ℕ × Mem). r.0) (place_all-none block b bins offset m e)
      ∙ (place_all-offset block bins offset m (omega (arith, fits, total)) small
          ∙ omega (arith, total))
]

-- How the thread-local blocks of `bins` end in an array at `block`: they are placed, and no byte is
-- written but those of the array and of the word behind it, to which the thread pointer points; or
-- they do not fit.
pub data Confined (block : ℕ) (bins : List ElfBinary) (m : Mem) : Result (ℕ × Mem) → Type 0 where
  confined :
      (placed : Mem)
      → tls_total bins ≤ tls_space
      → ((x : ℕ) → Outside block (tls_space + 8) x → placed x ≡ m x)
      → Confined block bins m (ok (tls_space - tls_total bins, placed))
  refused : tls_space < tls_total bins → Confined block bins m (err check_failed)

place_all-Confined :
    (block : ℕ) (bins : List ElfBinary) (m : Mem)
    → block + tls_space + 8 ≤ 2 ^ 64
    → tls_total bins ≤ tls_space
    → All FileFits bins
    → Confined block bins m (ok (place_all block bins tls_space m))
place_all-Confined block bins m room fits files =
    let at = place_all-offset block bins tls_space m fits (omega arith) in
    subst (λ (o : ℕ). Confined block bins m (ok (o, (place_all block bins tls_space m).1))) (sym at)
      (confined (place_all block bins tls_space m).1 fits λ x out.
        place_all-Outside block bins tls_space m x room fits files (omega (arith, out, fits)))

-- For the first call of Execute, with the offset at the top of the array: if neither the array
-- nor the sum of the sizes of the thread-local blocks wraps, and no file size exceeds its memory
-- size, the blocks are placed exactly if they fit into the array. Placing them writes nowhere but
-- in the array and the word behind it, and the offset goes down by their sizes. A failing check
-- ends the process otherwise.
pub init_tls-Confined :
    (block : ℕ) (bins : List ElfBinary) (m : Mem)
    → block + tls_space + 8 ≤ 2 ^ 64
    → tls_total bins < 2 ^ 64
    → All FileFits bins
    → Confined block bins m (init_tls block bins tls_space m)
unfolding init_tls
init_tls-Confined block bins m room small files =
    let size : tls_block_size 0 bins ≡ tls_total bins =
      tls_block_size-total bins 0 (omega (arith, small)) ∙ omega arith in
    elim (Bool-cases (leb (tls_block_size 0 bins) 4096)) [
      | inl e ↦ rw e (place_all-Confined block bins m room (ground (arith, size, e)) files)
      | inr e ↦ rw e (refused (ground (arith, size, e)))
    ]
