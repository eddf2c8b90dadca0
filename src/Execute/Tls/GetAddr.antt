-- ===== src/Execute/Tls/GetAddr.antt =====
-- Where `sloader_tls_get_addr` of libc_mapping.cc leads once Execute has placed the blocks.
use sloader.Base.{
  ℕ, ◌+◌, ◌-◌, ◌^◌, ◌<◌, ◌≤◌, ◌≡◌, ◌∙◌, ap, ◌⊎◌, inl, inr, true, List, [], ◌∷◌, ◌++◌, Bool-cases,
  All, arith,
}
use sloader.Base.Words.{add64}
use sloader.Memory.{Mem}
use sloader.Binary.{ElfBinary}
use sloader.Execute.Tls.{place_all, tls_get_addr}
use sloader.Execute.Tls.Block.{tls_source, FileFits}
use sloader.Execute.Tls.Image.{
  tls_total, tls_total-nil, tls_total-tls, tls_total-none, NoTls, image_byte, place_all-image,
}
use sloader.Execute.Tls.Bounds.{place_all-offset}

tls_total-NoTls : (ys : List ElfBinary) → All NoTls ys → tls_total ys ≡ 0
unfolding NoTls
tls_total-NoTls [] none = tls_total-nil
tls_total-NoTls (y ∷ ys) none = tls_total-none y ys none.0 ∙ tls_total-NoTls ys none.1

-- The last binary with a block comes last in the sum.
tls_total-last :
    (xs : List ElfBinary) (b : ElfBinary) (ys : List ElfBinary)
    → b.has_tls ≡ true
    → All NoTls ys
    → tls_total (xs ++ b ∷ ys) ≡ tls_total xs + b.file_tls.p_memsz
tls_total-last [] b ys has none =
    let size = tls_total-tls b ys has in
    let rest = tls_total-NoTls ys none in
    let nothing = tls_total-nil in omega (arith, size, rest, nothing)
tls_total-last (x ∷ xs) b ys has none =
    let below = tls_total-last xs b ys has none in
    elim (Bool-cases x.has_tls) [
      | inl e ↦
          let whole = tls_total-tls x (xs ++ b ∷ ys) e in
          let front = tls_total-tls x xs e in omega (arith, whole, front, below)
      | inr e ↦
          let whole = tls_total-none x (xs ++ b ∷ ys) e in
          let front = tls_total-none x xs e in omega (arith, whole, front, below)
    ]

-- After the blocks are placed below `block + offset`, sloader_tls_get_addr leads, for any offset
-- inside it, to that byte of the block of the last binary with TLS, which is that of its initial
-- image, or 0 past the file size; whichever binary asks. Provided that the sizes fit below
-- `offset` without wrapping, that no file size exceeds its memory size, and that the initial
-- image lies apart from the blocks.
pub tls_get_addr-image :
    (block : ℕ) (xs : List ElfBinary) (b : ElfBinary) (ys : List ElfBinary) (offset : ℕ) (m : Mem)
    (ti_offset : ℕ)
    → b.has_tls ≡ true
    → All NoTls ys
    → ti_offset < b.file_tls.p_memsz
    → block + offset + 8 ≤ 2 ^ 64
    → tls_total (xs ++ b ∷ ys) ≤ offset
    → All FileFits (xs ++ b ∷ ys)
    → (tls_source b + b.file_tls.p_memsz ≤ block) ⊎ (block + offset + 8 ≤ tls_source b)
    → (place_all block (xs ++ b ∷ ys) offset m).1
        (tls_get_addr block (place_all block (xs ++ b ∷ ys) offset m).0 ti_offset)
      ≡ image_byte m b ti_offset
unfolding tls_get_addr
tls_get_addr-image block xs b ys offset m ti_offset has none inside room fits files apart =
    let last = tls_total-last xs b ys has none in
    let now = place_all-offset block (xs ++ b ∷ ys) offset m fits (omega (arith, room)) in
    let at : add64 (add64 block (place_all block (xs ++ b ∷ ys) offset m).0) ti_offset
        ≡ block + offset - tls_total xs - b.file_tls.p_memsz + ti_offset =
      omega (arith, now, last, room, inside, fits) in
    ap (place_all block (xs ++ b ∷ ys) offset m).1 at
    ∙ place_all-image block b ys has ti_offset inside (inr none) xs offset m room fits files apart
