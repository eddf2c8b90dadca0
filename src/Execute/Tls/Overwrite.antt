-- ===== src/Execute/Tls/Overwrite.antt =====
-- Where the blocks of two binaries meet: the word at the start of the upper one.
use sloader.Base.{
  ℕ, ◌+◌, ◌-◌, ◌^◌, ◌≤◌, ◌≡◌, ◌∙◌, sym, ap, subst, inl, inr, List, [], ◌∷◌, ◌++◌, true, Bool-cases,
  All, arith,
}
use sloader.Memory.{Mem, read64}
use sloader.Memory.Laws.{read64_ext}
use sloader.Binary.{ElfBinary}
use sloader.Execute.Tls.{place_tls, place_all}
use sloader.Execute.Tls.Image.{
  tls_total, tls_total-nil, tls_total-tls, tls_total-none, place_all-tls, place_all-none,
  place_all-Outside,
}
use sloader.Execute.Tls.Block.{FileFits, place_tls_self}

module _ (block : ℕ) (b c : ElfBinary) (zs : List ElfBinary) (b_has : b.has_tls ≡ true)
    (c_has : c.has_tls ≡ true) (word_fits : 8 ≤ c.file_tls.p_memsz) where
  first-overwritten :
      (offset : ℕ) (m : Mem)
      → block + offset + 8 ≤ 2 ^ 64
      → tls_total (b ∷ c ∷ zs) ≤ offset
      → All FileFits (b ∷ c ∷ zs)
      → read64 (place_all block (b ∷ c ∷ zs) offset m).1 (block + (offset - b.file_tls.p_memsz))
        ≡ block + (offset - b.file_tls.p_memsz)
  first-overwritten offset m room fits files =
      let b_size = tls_total-tls b (c ∷ zs) b_has in
      let c_size = tls_total-tls c zs c_has in
      let here : ℕ = offset - b.file_tls.p_memsz in
      let m1 : Mem = place_tls block b offset m in
      let c_fits : c.file_tls.p_memsz ≤ here = omega (arith, b_size, c_size, fits) in
      ap (λ (r : ℕ × Mem). read64 r.1 (block + here))
        (place_all-tls block b (c ∷ zs) offset m b_has (omega (arith, b_size, fits))
            (omega (arith, room))
          ∙ place_all-tls block c zs here m1 c_has c_fits (omega (arith, room)))
      ∙ (read64_ext _ _ (block + here) (λ x lo hi.
            place_all-Outside block zs (here - c.file_tls.p_memsz) (place_tls block c here m1) x
              (omega (arith, room)) (omega (arith, b_size, c_size, fits)) files.1.1
              (omega (arith, lo, word_fits, c_fits)))
          ∙ place_tls_self block here c m1 (omega (arith, room)) c_fits files.1.0)

  -- If two binaries with TLS follow one another, the second with 8 bytes at least, the first word of the
  -- block of the first holds its own address after the blocks are placed, whatever its image says;
  -- provided that the sizes fit below `offset` and that no file size exceeds its memory size.
  pub place_all-overwrites :
      (xs : List ElfBinary) (offset : ℕ) (m : Mem)
      → block + offset + 8 ≤ 2 ^ 64
      → tls_total (xs ++ b ∷ c ∷ zs) ≤ offset
      → All FileFits (xs ++ b ∷ c ∷ zs)
      → read64
          (place_all block (xs ++ b ∷ c ∷ zs) offset m).1
          (block + (offset - tls_total xs - b.file_tls.p_memsz))
        ≡ block + (offset - tls_total xs - b.file_tls.p_memsz)
  place_all-overwrites [] offset m room fits files =
      let nothing = tls_total-nil in
      subst (λ (k : ℕ). read64 (place_all block (b ∷ c ∷ zs) offset m).1 (block + k) ≡ block + k)
        (omega (arith, nothing)) (first-overwritten offset m room fits files)
  place_all-overwrites (x ∷ xs) offset m room fits files = elim (Bool-cases x.has_tls) [
    | inl e ↦
        let size = tls_total-tls x (xs ++ b ∷ c ∷ zs) e in
        let before = tls_total-tls x xs e in
        let at : offset - x.file_tls.p_memsz - tls_total xs - b.file_tls.p_memsz
            ≡ offset - tls_total (x ∷ xs) - b.file_tls.p_memsz =
          omega (arith, before) in
        ap
          (λ (r : ℕ × Mem). read64 r.1 (block + (offset - tls_total (x ∷ xs) - b.file_tls.p_memsz)))
          (place_all-tls block x (xs ++ b ∷ c ∷ zs) offset m e (omega (arith, size, fits))
            (omega (arith, room)))
        ∙ subst
            (λ (k : ℕ).
              read64
                (place_all block (xs ++ b ∷ c ∷ zs) (offset - x.file_tls.p_memsz)
                  (place_tls block x offset m)).1
                (block + k)
              ≡ block + k)
            at
            (place_all-overwrites xs (offset - x.file_tls.p_memsz) (place_tls block x offset m)
              (omega (arith, room)) (omega (arith, size, fits)) files.1)
    | inr e ↦
        let size = tls_total-none x (xs ++ b ∷ c ∷ zs) e in
        let at : offset - tls_total xs - b.file_tls.p_memsz
            ≡ offset - tls_total (x ∷ xs) - b.file_tls.p_memsz =
          ap (λ (k : ℕ). offset - k - b.file_tls.p_memsz) (sym (tls_total-none x xs e)) in
        ap
          (λ (r : ℕ × Mem). read64 r.1 (block + (offset - tls_total (x ∷ xs) - b.file_tls.p_memsz)))
          (place_all-none block x (xs ++ b ∷ c ∷ zs) offset m e)
        ∙ subst
            (λ (k : ℕ).
              read64 (place_all block (xs ++ b ∷ c ∷ zs) offset m).1 (block + k) ≡ block + k)
            at
            (place_all-overwrites xs offset m room (subst (λ (k : ℕ). k ≤ offset) size fits)
              files.1)
  ]
