-- ===== src/Execute/Tls/Image.antt =====
-- What the thread-local blocks hold after Execute has placed them.
use sloader.Base.{
  ℕ, ◌+◌, ◌-◌, ◌^◌, ◌<◌, ◌≤◌, ◌≡◌, ◌∙◌, ap, subst, refl, ◌⊎◌, inl, inr, List, [], ◌∷◌, ◌++◌, true,
  false, Bool-cases, if◌then◌else◌, ltb, All, arith,
}
use sloader.Base.Words.{sub64}
use sloader.Memory.{Mem}
use sloader.Memory.Laws.{Outside}
use sloader.Binary.{ElfBinary}
use sloader.Execute.Tls.{place_tls, place_all}
use sloader.Execute.Tls.Block.{tls_source, FileFits, place_tls-Outside, place_tls-inside}

-- The sum of the sizes, in ℕ.
unfoldable pub tls_total : List ElfBinary → ℕ
tls_total [] = 0
tls_total (b ∷ rest) = (if b.has_tls then b.file_tls.p_memsz else 0) + tls_total rest

-- One round of the loop.
pub place_all-tls :
    (block : ℕ) (b : ElfBinary) (rest : List ElfBinary) (offset : ℕ) (m : Mem)
    → b.has_tls ≡ true
    → b.file_tls.p_memsz ≤ offset
    → offset < 2 ^ 64
    → place_all block (b ∷ rest) offset m
      ≡ place_all block rest (offset - b.file_tls.p_memsz) (place_tls block b offset m)
unfolding place_all
place_all-tls block b rest offset m e fits small =
    let down : sub64 offset b.file_tls.p_memsz ≡ offset - b.file_tls.p_memsz =
      omega (arith, fits, small) in
    rw (e, down) refl

pub place_all-none :
    (block : ℕ) (b : ElfBinary) (rest : List ElfBinary) (offset : ℕ) (m : Mem)
    → b.has_tls ≡ false
    → place_all block (b ∷ rest) offset m ≡ place_all block rest offset m
unfolding place_all
place_all-none block b rest offset m e = rw e refl

pub tls_total-nil : tls_total [] ≡ 0
unfolding tls_total
tls_total-nil = refl

pub tls_total-tls :
    (b : ElfBinary) (rest : List ElfBinary)
    → b.has_tls ≡ true
    → tls_total (b ∷ rest) ≡ b.file_tls.p_memsz + tls_total rest
unfolding tls_total
tls_total-tls b rest e = rw e refl

pub tls_total-none :
    (b : ElfBinary) (rest : List ElfBinary)
    → b.has_tls ≡ false
    → tls_total (b ∷ rest) ≡ tls_total rest
unfolding tls_total
tls_total-none b rest e = rw e (omega arith)

-- Placing the rest writes below the current offset, and to the word at it.
pub place_all-Outside :
    (block : ℕ) (bins : List ElfBinary) (offset : ℕ) (m : Mem) (x : ℕ)
    → block + offset + 8 ≤ 2 ^ 64
    → tls_total bins ≤ offset
    → All FileFits bins
    → Outside (block + offset - tls_total bins) (tls_total bins + 8) x
    → (place_all block bins offset m).1 x ≡ m x
unfolding place_all
place_all-Outside block [] offset m x room fits files out = refl
place_all-Outside block (b ∷ bins) offset m x room fits files out = elim (Bool-cases b.has_tls) [
  | inl e ↦
      let size = tls_total-tls b bins e in
      let memsz : b.file_tls.p_memsz ≤ offset = omega (arith, size, fits) in
      ap (λ (r : ℕ × Mem). r.1 x)
        (place_all-tls block b bins offset m e memsz (omega (arith, room)))
      ∙ (place_all-Outside block bins (offset - b.file_tls.p_memsz) (place_tls block b offset m) x
            (omega (arith, room)) (omega (arith, fits, size)) files.1
            (omega (arith, size, out, fits))
          ∙ place_tls-Outside block offset b m room memsz files.0 x
              (omega (arith, size, out, fits)))
  | inr e ↦
      let size = tls_total-none b bins e in
      ap (λ (r : ℕ × Mem). r.1 x) (place_all-none block b bins offset m e)
      ∙ place_all-Outside block bins offset m x room (omega (arith, fits, size)) files.1
          (omega (arith, size, out, fits))
]

-- A binary with no segment PT_TLS.
unfoldable pub NoTls : ElfBinary → Type 0
NoTls b = b.has_tls ≡ false

-- Binaries with no TLS write nothing.
place_all-NoTls :
    (block : ℕ) (bins : List ElfBinary) (offset : ℕ) (m : Mem)
    → All NoTls bins
    → place_all block bins offset m ≡ (offset, m)
unfolding place_all NoTls
place_all-NoTls block [] offset m none = refl
place_all-NoTls block (b ∷ bins) offset m none =
    place_all-none block b bins offset m none.0 ∙ place_all-NoTls block bins offset m none.1

-- The byte of the image at `i`.
abbrev pub image_byte : Mem → ElfBinary → ℕ → ℕ
image_byte m b i = if ltb i b.file_tls.p_filesz then m (tls_source b + i) else 0

module _ (block : ℕ) (b : ElfBinary) (ys : List ElfBinary) (has : b.has_tls ≡ true) (i : ℕ)
    (in_block : i < b.file_tls.p_memsz) (kept : (8 ≤ i) ⊎ All NoTls ys) where
  first-image :
      (offset : ℕ) (m : Mem)
      → block + offset + 8 ≤ 2 ^ 64
      → tls_total (b ∷ ys) ≤ offset
      → All FileFits (b ∷ ys)
      → (place_all block (b ∷ ys) offset m).1 (block + offset - b.file_tls.p_memsz + i)
        ≡ image_byte m b i
  first-image offset m room fits files =
      let size = tls_total-tls b ys has in
      let memsz : b.file_tls.p_memsz ≤ offset = omega (arith, size, fits) in
      let inside = place_tls-inside block offset b m room memsz files.0 i in_block in
      ap (λ (r : ℕ × Mem). r.1 (block + offset - b.file_tls.p_memsz + i))
        (place_all-tls block b ys offset m has memsz (omega (arith, room)))
      ∙ (elim kept [
        | inl late ↦
            place_all-Outside block ys (offset - b.file_tls.p_memsz) (place_tls block b offset m)
              (block + offset - b.file_tls.p_memsz + i) (omega (arith, room))
              (omega (arith, fits, size)) files.1 (omega (arith, late, fits, size))
        | inr last ↦
            ap (λ (r : ℕ × Mem). r.1 (block + offset - b.file_tls.p_memsz + i))
              (place_all-NoTls block ys (offset - b.file_tls.p_memsz) (place_tls block b offset m)
                last)
      ]
          ∙ inside)

  -- After the blocks are placed below `block + offset`, byte `i` of the block of a binary with TLS is
  -- that of the initial image, or 0 past the file size, if `i` is 8 at least or no later binary has TLS;
  -- provided that the sizes fit below `offset` without wrapping, that no file size exceeds its memory
  -- size, and that the binary's initial image lies apart from the blocks.
  pub place_all-image :
      (xs : List ElfBinary) (offset : ℕ) (m : Mem)
      → block + offset + 8 ≤ 2 ^ 64
      → tls_total (xs ++ b ∷ ys) ≤ offset
      → All FileFits (xs ++ b ∷ ys)
      → (tls_source b + b.file_tls.p_memsz ≤ block) ⊎ (block + offset + 8 ≤ tls_source b)
      → (place_all block (xs ++ b ∷ ys) offset m).1
          (block + offset - tls_total xs - b.file_tls.p_memsz + i)
        ≡ image_byte m b i
  place_all-image [] offset m room fits files apart =
      let nothing = tls_total-nil in
      ap (place_all block (b ∷ ys) offset m).1 (omega (arith, nothing))
      ∙ first-image offset m room fits files
  place_all-image (x ∷ xs) offset m room fits files apart = elim (Bool-cases x.has_tls) [
    | inl e ↦
        let size = tls_total-tls x (xs ++ b ∷ ys) e in
        let before = tls_total-tls x xs e in
        let memsz : x.file_tls.p_memsz ≤ offset = omega (arith, size, fits) in
        let at : block + offset - tls_total (x ∷ xs) - b.file_tls.p_memsz + i
            ≡ block + (offset - x.file_tls.p_memsz) - tls_total xs - b.file_tls.p_memsz + i =
          omega (arith, before, memsz) in
        let same : place_tls block x offset m (tls_source b + i) ≡ m (tls_source b + i) =
          place_tls-Outside block offset x m room memsz files.0 (tls_source b + i)
            (omega (arith, apart, in_block, memsz)) in
        ap (λ (r : ℕ × Mem). r.1 (block + offset - tls_total (x ∷ xs) - b.file_tls.p_memsz + i))
          (place_all-tls block x (xs ++ b ∷ ys) offset m e memsz (omega (arith, room)))
        ∙ (ap
              (place_all block (xs ++ b ∷ ys) (offset - x.file_tls.p_memsz)
                (place_tls block x offset m)).1
              at
            ∙ (place_all-image xs (offset - x.file_tls.p_memsz) (place_tls block x offset m)
                  (omega (arith, room)) (omega (arith, size, fits)) files.1 (omega (arith, apart))
                ∙ ap (λ (v : ℕ). if ltb i b.file_tls.p_filesz then v else 0) same))
    | inr e ↦
        let size = tls_total-none x (xs ++ b ∷ ys) e in
        let before = tls_total-none x xs e in
        ap (λ (r : ℕ × Mem). r.1 (block + offset - tls_total (x ∷ xs) - b.file_tls.p_memsz + i))
          (place_all-none block x (xs ++ b ∷ ys) offset m e)
        ∙ (ap
              (λ (k : ℕ).
                (place_all block (xs ++ b ∷ ys) offset m).1
                  (block + offset - k - b.file_tls.p_memsz + i))
              before
            ∙ place_all-image xs offset m room (subst (λ (k : ℕ). k ≤ offset) size fits) files.1
                apart)
  ]
