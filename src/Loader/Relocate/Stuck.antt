-- ===== src/Loader/Relocate/Stuck.antt =====
-- The relocations at which DynLoader::Relocate ends the process.
use sloader.Base.{
  ℕ, ◌==◌, ◌||◌, ◌≡◌, refl, Bool, true, false, inl, inr, Option, none, some, List, [], ◌∷◌, Str,
  Option-cases, get_elem?, All, arith,
}
use sloader.Result.{Failure, ok, err, check_failed, aborted}
use sloader.Memory.{Mem}
use sloader.Elf.{Elf64Rela, Elf64Sym, r_sym, r_type}
use sloader.Elf.Relocs.{
  r64, copy, glob_dat, jump_slot, relative, dtpmod64, dtpoff64, tpoff64, irelative,
}
use sloader.Binary.{ElfBinary}
use sloader.Loader.Symbols.{
  sym_name, is_defined, is_weak_undefined, search_sym, first_tls, tls_offset_from, TlsSpace,
  tls_sym_offset,
}
use sloader.Loader.Symbols.First.{NoneFits, Resolves, search_sym-Resolves}
use sloader.Loader.Relocate.{
  Libc, at_index, copy_source, apply_copy, apply_tpoff, thread_offset, copied, unsupported, case_of,
  apply_case, relocate_rela,
}

-- The types of relocations that the loader knows.
unfoldable pub known_type : ℕ → Bool
known_type type =
    type == r64
    || type == copy
    || type == glob_dat
    || type == jump_slot
    || type == relative
    || type == dtpmod64
    || type == dtpoff64
    || type == tpoff64
    || type == irelative

pub case_of-unknown : (type : ℕ) → case_of type ≡ unsupported → known_type type ≡ false
unfolding case_of known_type
case_of-unknown type h = ground arith

pub case_of-copied : (type : ℕ) → case_of type ≡ copied → type ≡ copy
unfolding case_of
case_of-copied type h = ground arith

pub case_of-thread : (type : ℕ) → case_of type ≡ thread_offset → type ≡ tpoff64
unfolding case_of
case_of-thread type h = ground arith

known_type-case : (type : ℕ) → known_type type ≡ false → case_of type ≡ unsupported
unfolding case_of known_type
known_type-case type h = ground arith

-- No binary but perhaps the first one has a symbol of that name which is defined, or undefined and weak.
pub record NothingToCopy (m : Mem) (bins : List ElfBinary) (name : Str) : Type 0 where
  pub no_definition : NoneFits (is_defined m name) 1 bins
  pub no_weak_symbol : NoneFits (is_weak_undefined m name) 1 bins

-- Why a relocation cannot be applied, and how that ends.
pub data Stuck (libc : Libc) (bins : List ElfBinary) (bin : ElfBinary) (r : Elf64Rela) (m : Mem)
    : Failure → Type 0 where
  no_symbol : get_elem? bin.symtabs (r_sym r) ≡ none → Stuck libc bins bin r m check_failed
  unknown_type :
      (s : Elf64Sym)
      → get_elem? bin.symtabs (r_sym r) ≡ some s
      → known_type (r_type r) ≡ false
      → Stuck libc bins bin r m aborted
  nothing_to_copy :
      (s : Elf64Sym)
      → get_elem? bin.symtabs (r_sym r) ≡ some s
      → r_type r ≡ copy
      → libc.libc_map (sym_name m bin s) ≡ none
      → NothingToCopy m bins (sym_name m bin s)
      → Stuck libc bins bin r m aborted
  no_variable :
      (s : Elf64Sym)
      → get_elem? bin.symtabs (r_sym r) ≡ some s
      → r_type r ≡ tpoff64
      → All (λ b. first_tls m (sym_name m bin s) b b.symtabs ≡ none) bins
      → libc.space.libc_variables (sym_name m bin s) ≡ none
      → Stuck libc bins bin r m aborted

pub at_index-some {ℓ} :
    {A : Type ℓ} (xs : List A) (i : ℕ) {x : A} → get_elem? xs i ≡ some x → at_index xs i ≡ ok x
unfolding at_index
at_index-some xs i e = rw (e, at_index) refl

pub at_index-none {ℓ} :
    {A : Type ℓ} (xs : List A) (i : ℕ) → get_elem? xs i ≡ none → at_index xs i ≡ err check_failed
unfolding at_index
at_index-none xs i e = rw (e, at_index) refl

pub tls_offset_from-none :
    (m : Mem) (name : Str) (bins : List ElfBinary) (offset : ℕ)
    → tls_offset_from m name offset bins ≡ none
    → All (λ b. first_tls m name b b.symtabs ≡ none) bins
unfolding tls_offset_from
tls_offset_from-none m name [] offset h = tt
tls_offset_from-none m name (b ∷ bins) offset h =
    elim (Option-cases (first_tls m name b b.symtabs)) [
      | inl e ↦ (e, tls_offset_from-none m name bins _ (rw (e, tls_offset_from) at h))
      | inr (v, e) ↦ absurd (ground arith)
    ]

no_first_tls :
    (m : Mem) (name : Str) (bins : List ElfBinary) (offset : ℕ)
    → All (λ b. first_tls m name b b.symtabs ≡ none) bins
    → tls_offset_from m name offset bins ≡ none
unfolding tls_offset_from
no_first_tls m name [] offset h = refl
no_first_tls m name (b ∷ bins) offset (e, h) = rw e (no_first_tls m name bins _ h)

-- An entry that fits refutes that none does.
both_ways : {c : Bool} → c ≡ true → c ≡ false → ⊥
both_ways h k = cc

search_sym-nothing :
    (m : Mem) (bins : List ElfBinary) (name : Str)
    → NothingToCopy m bins name
    → search_sym m bins name true ≡ none
search_sym-nothing m bins name n =
    go (search_sym m bins name true) (search_sym-Resolves m bins name true)
  where
    go : (o : Option (ℕ × ℕ)) → Resolves m bins name 1 o → o ≡ none
    go none h = refl
    go (some (i, j)) (inl f) =
        absurd (both_ways f.fits (n.no_definition i j f.b f.s f.from f.entry))
    go (some (i, j)) (inr (d, f)) =
        absurd (both_ways f.fits (n.no_weak_symbol i j f.b f.s f.from f.entry))

copy_source-fails :
    (libc : Libc) (m : Mem) (bins : List ElfBinary) (name : Str)
    → libc.libc_map name ≡ none
    → NothingToCopy m bins name
    → copy_source libc m bins name ≡ err aborted
unfolding copy_source
copy_source-fails libc m bins name absent n =
    rw (absent, search_sym-nothing m bins name n, copy_source) refl

tls_sym_offset-fails :
    (space : TlsSpace) (m : Mem) (bins : List ElfBinary) (name : Str)
    → All (λ b. first_tls m name b b.symtabs ≡ none) bins
    → space.libc_variables name ≡ none
    → tls_sym_offset space m bins name ≡ err aborted
unfolding tls_sym_offset
tls_sym_offset-fails space m bins name missing absent =
    rw (no_first_tls m name bins 0 missing, absent, tls_sym_offset) refl

pub Stuck-fails :
    (libc : Libc) (bins : List ElfBinary) (bin : ElfBinary) (r : Elf64Rela) (m : Mem) (e : Failure)
    → Stuck libc bins bin r m e
    → relocate_rela libc bins bin r m ≡ err e
unfolding relocate_rela case_of apply_case apply_copy apply_tpoff
Stuck-fails libc bins bin r m e (no_symbol h) = rw (at_index-none bin.symtabs (r_sym r) h) refl
Stuck-fails libc bins bin r m e (unknown_type s at h) =
    rw (at_index-some bin.symtabs (r_sym r) at, known_type-case (r_type r) h) refl
Stuck-fails libc bins bin r m e (nothing_to_copy s at type absent n) =
    rw
      (
        at_index-some bin.symtabs (r_sym r) at,
        type,
        copy_source-fails libc m bins (sym_name m bin s) absent n,
      )
      refl
Stuck-fails libc bins bin r m e (no_variable s at type missing absent) =
    rw
      (
        at_index-some bin.symtabs (r_sym r) at,
        type,
        tls_sym_offset-fails libc.space m bins (sym_name m bin s) missing absent,
      )
      refl
