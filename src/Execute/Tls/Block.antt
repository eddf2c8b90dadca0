-- ===== src/Execute/Tls/Block.antt =====
-- One thread-local block: what placing it writes.
use sloader.Base.{ℕ, ◌+◌, ◌-◌, ◌^◌, ◌<◌, ◌≤◌, ◌≡◌, ◌∙◌, ap, refl, if◌then◌else◌, ltb, arith}
use sloader.Base.Words.{add64, sub64}
use sloader.Memory.{Mem, read64, write64, memcpy, memset, copy_from}
use sloader.Memory.Laws.{
  Outside, read64-write64, write64-Outside, copy_from-Outside, memset-Outside,
}
use sloader.Binary.{ElfBinary}
use sloader.Execute.Tls.{place_tls}

-- The address of the initial image.
abbrev pub tls_source : ElfBinary → ℕ
tls_source b = add64 b.base_addr b.file_tls.p_vaddr

-- The file part of a segment is not larger than the segment.
unfoldable pub FileFits : ElfBinary → Type 0
FileFits b = b.file_tls.p_filesz ≤ b.file_tls.p_memsz

block_image :
    (m : Mem) (start src memsz filesz tbss i : ℕ)
    → tbss ≡ start + filesz
    → filesz ≤ memsz
    → i < memsz
    → memset (memcpy m start src memsz) tbss 0 (memsz - filesz) (start + i)
      ≡ (if ltb i filesz then m (src + i) else 0)
unfolding memset memcpy copy_from
block_image m start src memsz filesz tbss i e f h =
    let back : start + i - start ≡ i = omega arith in rw (back) (ground arith)

module _ (block offset : ℕ) (b : ElfBinary) (m : Mem) (room : block + offset + 8 ≤ 2 ^ 64)
    (fits : b.file_tls.p_memsz ≤ offset) (file : FileFits b) where
  place_tls-plain : place_tls block b offset m ≡ (
      let memsz : ℕ = b.file_tls.p_memsz in
      let filesz : ℕ = b.file_tls.p_filesz in
      write64
        (memset
          (memcpy m (block + offset - memsz) (tls_source b) memsz)
          (block + offset - (memsz - filesz))
          0
          (memsz - filesz))
        (block + offset)
        (block + offset))
  unfolding place_tls FileFits
  place_tls-plain =
      let memsz : ℕ = b.file_tls.p_memsz in
      let filesz : ℕ = b.file_tls.p_filesz in
      let here : add64 block offset ≡ block + offset = omega (arith, room) in
      let start : sub64 (block + offset) memsz ≡ block + offset - memsz =
        omega (arith, room, fits) in
      let size : sub64 memsz filesz ≡ memsz - filesz = omega (arith, room, fits, file) in
      let tbss : sub64 (block + offset) (memsz - filesz) ≡ block + offset - (memsz - filesz) =
        omega (arith, room, fits, file) in
      rw (here, start, size, tbss) refl

  pub place_tls-Outside :
      (x : ℕ)
      → Outside (block + offset - b.file_tls.p_memsz) (b.file_tls.p_memsz + 8) x
      → place_tls block b offset m x ≡ m x
  unfolding FileFits memcpy
  place_tls-Outside x out =
      let memsz : ℕ = b.file_tls.p_memsz in
      let tbss : ℕ = memsz - b.file_tls.p_filesz in
      let start : ℕ = block + offset - memsz in
      ap (λ (m' : Mem). m' x) place_tls-plain
      ∙ (write64-Outside _ (block + offset) (block + offset) x (omega (arith, out, fits))
          ∙ (memset-Outside _ (block + offset - tbss) 0 tbss x (omega (arith, out, fits, file))
              ∙ copy_from-Outside m m start (tls_source b) memsz x (omega (arith, out, fits))))

  pub place_tls_self : read64 (place_tls block b offset m) (block + offset) ≡ block + offset
  place_tls_self =
      ap (λ (m' : Mem). read64 m' (block + offset)) place_tls-plain
      ∙ read64-write64 _ (block + offset) (block + offset) (omega (arith, room))

  pub place_tls-inside :
      (i : ℕ)
      → i < b.file_tls.p_memsz
      → place_tls block b offset m (block + offset - b.file_tls.p_memsz + i)
        ≡ (if ltb i b.file_tls.p_filesz then m (tls_source b + i) else 0)
  unfolding FileFits
  place_tls-inside i h =
      ap (λ (m' : Mem). m' (block + offset - b.file_tls.p_memsz + i)) place_tls-plain
      ∙ (write64-Outside _ (block + offset) (block + offset) _ (omega (arith, h, fits))
          ∙ block_image m (block + offset - b.file_tls.p_memsz) (tls_source b) b.file_tls.p_memsz
              b.file_tls.p_filesz _ i (omega (arith, file, fits)) file h)
