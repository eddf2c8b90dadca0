-- ===== src/Execute/Tls/Offsets.antt =====
-- The offsets of thread-local variables from the thread pointer, and the blocks of Execute.
use sloader.Base.{
  ℕ, ◌+◌, ◌-◌, ◌^◌, ◌<◌, ◌≤◌, ◌≡◌, ap, refl, inl, inr, List, [], ◌∷◌, ◌++◌, Bool-cases, Option,
  none, some, Str, All, arith,
}
use sloader.Base.Words.{add64, sub64}
use sloader.Result.{Result, ok, err, aborted}
use sloader.Memory.{Mem}
use sloader.Binary.{ElfBinary}
use sloader.Loader.Symbols.{first_tls, tls_offset_from, TlsSpace, tls_sym_offset}
use sloader.Execute.Tls.{tls_space}
use sloader.Execute.Tls.Image.{tls_total, tls_total-nil, tls_total-tls, tls_total-none}

-- The binary does not define the thread-local variable.
unfoldable pub NoVariable : Mem → Str → ElfBinary → Type 0
NoVariable m name b = first_tls m name b b.symtabs ≡ none

tls_offset_from-eq :
    (m : Mem) (name : Str) (xs : List ElfBinary) (b : ElfBinary) (ys : List ElfBinary)
    (offset size value : ℕ)
    → All (NoVariable m name) xs
    → first_tls m name b b.symtabs ≡ some value
    → offset ≡ sub64 0 size
    → size + tls_total xs + b.file_tls.p_memsz < 2 ^ 64
    → tls_offset_from m name offset (xs ++ b ∷ ys)
      ≡ some (add64 (sub64 0 (size + tls_total xs + b.file_tls.p_memsz)) value)
unfolding tls_offset_from NoVariable
tls_offset_from-eq m name [] b ys offset size value missing found at small =
    let nothing = tls_total-nil in
    let down : sub64 offset b.file_tls.p_memsz
        ≡ sub64 0 (size + tls_total [] + b.file_tls.p_memsz) =
      omega (arith, at, small, nothing) in
    rw (found, down) refl
tls_offset_from-eq m name (x ∷ xs) b ys offset size value missing found at small =
    elim (Bool-cases x.has_tls) [
      | inl e ↦
          let total = tls_total-tls x xs e in
          let down : sub64 offset x.file_tls.p_memsz ≡ sub64 0 (size + x.file_tls.p_memsz) =
            omega (arith, at, small, total) in
          let sum : size + tls_total (x ∷ xs) ≡ size + x.file_tls.p_memsz + tls_total xs =
            omega (arith, total) in
          rw (missing.0, sum, e)
            (tls_offset_from-eq m name xs b ys (sub64 offset x.file_tls.p_memsz)
              (size + x.file_tls.p_memsz) value missing.1 found down (omega (arith, small, sum)))
      | inr e ↦
          let total = tls_total-none x xs e in
          rw (missing.0, total, e)
            (tls_offset_from-eq m name xs b ys offset size value missing.1 found at
              (omega (arith, small, total)))
    ]

tls_sym_offset-found :
    (space : TlsSpace) (m : Mem) (bins : List ElfBinary) (name : Str) {offset : ℕ}
    → tls_offset_from m name 0 bins ≡ some offset
    → tls_sym_offset space m bins name ≡ ok offset
unfolding tls_sym_offset
tls_sym_offset-found space m bins name found =
    ap
      (λ (r : Option ℕ). elim r as (λ _. Result ℕ) [
        | some offset ↦ ok offset
        | none ↦ elim (space.libc_variables name) as (λ _. Result ℕ) [
          | some addr ↦ ok (sub64 (space.block + 4096) addr)
          | none ↦ err aborted
        ]
      ])
      found

-- If `b` is the first binary that defines the variable, at a value inside its block, and the blocks up
-- to it fit, TLSSymOffset returns an offset that leads from the thread pointer to the value's place in
-- the block of `b`. The thread pointer is the end of the array, which does not wrap.
pub tls_sym_offset-address :
    (space : TlsSpace) (m : Mem) (name : Str) (xs : List ElfBinary) (b : ElfBinary)
    (ys : List ElfBinary) (value : ℕ)
    → space.block + 8192 ≤ 2 ^ 64
    → All (NoVariable m name) xs
    → first_tls m name b b.symtabs ≡ some value
    → value < b.file_tls.p_memsz
    → tls_total xs + b.file_tls.p_memsz ≤ tls_space
    → (offset : ℕ) × (tls_sym_offset space m (xs ++ b ∷ ys) name ≡ ok offset)
      × (add64 (space.block + tls_space) offset
          ≡ space.block + tls_space - tls_total xs - b.file_tls.p_memsz + value)
tls_sym_offset-address space m name xs b ys value room missing found inside fits =
    let found_offset =
      tls_offset_from-eq m name xs b ys 0 0 value missing found (omega arith)
        (omega (arith, fits)) in
    (
      add64 (sub64 0 (0 + tls_total xs + b.file_tls.p_memsz)) value,
      tls_sym_offset-found space m (xs ++ b ∷ ys) name found_offset,
      omega (arith, room, inside, fits),
    )
