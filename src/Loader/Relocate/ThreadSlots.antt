-- ===== src/Loader/Relocate/ThreadSlots.antt =====
-- Slots of thread-local variables: Relocate and TLSSymOffset together.
use sloader.Base.{
  ℕ, ◌+◌, ◌-◌, ◌^◌, ◌≤◌, ◌<◌, ◌≡◌, ◌∙◌, sym, ap, subst, refl, some, List, [], ◌∷◌, ◌++◌, All, Str,
  get_elem?, if◌then◌else◌, inl, inr, Option-cases, arith,
}
use mathlib.Core.Option.{some-injective}
use sloader.Base.Words.{add64, sub64}
use sloader.Result.{ok, ok-injective}
use sloader.Memory.{Mem, read64}
use sloader.Memory.Laws.{read64-write64}
use sloader.Elf.{Elf64Rela, Elf64Sym, r_sym, r_type}
use sloader.Elf.Relocs.{tpoff64}
use sloader.Binary.{ElfBinary}
use sloader.Loader.Symbols.{sym_name, is_tls, first_tls, tls_offset_from, TlsSpace, tls_sym_offset}
use sloader.Loader.Symbols.Names.{Agree, NamesClear}
use sloader.Loader.Relocate.{Libc, reloc_addr, apply_tpoff, case_of, apply_case, relocate_relas}
use sloader.Loader.Relocate.Frame.{MaxSize}
use sloader.Loader.Relocate.Values.{Misses, areas, entry_step, later_keeps}
use sloader.Execute.Tls.{tls_space}
use sloader.Execute.Tls.Image.{tls_total}
use sloader.Execute.Tls.Offsets.{NoVariable, tls_sym_offset-address}

is_tls-ext :
    (m g : Mem) (name : Str) (b : ElfBinary) (s : Elf64Sym)
    → sym_name m b s ≡ sym_name g b s
    → is_tls m name b s ≡ is_tls g name b s
unfolding is_tls
is_tls-ext m g name b s e = rw e

first_tls-Agree :
    (m g : Mem) (name : Str) (b : ElfBinary) (syms : List Elf64Sym)
    → All (λ s. sym_name m b s ≡ sym_name g b s) syms
    → first_tls m name b syms ≡ first_tls g name b syms
unfolding first_tls
first_tls-Agree m g name b [] h = refl
first_tls-Agree m g name b (s ∷ syms) (e, h) =
    rw (is_tls-ext m g name b s e, first_tls-Agree m g name b syms h) refl

tls_offset_from-Agree :
    (m g : Mem) (name : Str) (bins : List ElfBinary) (offset : ℕ)
    → Agree m g bins
    → tls_offset_from m name offset bins ≡ tls_offset_from g name offset bins
unfolding tls_offset_from
tls_offset_from-Agree m g name [] offset h = refl
tls_offset_from-Agree m g name (b ∷ bins) offset (e, h) =
    rw
      (
        first_tls-Agree m g name b b.symtabs e,
        tls_offset_from-Agree m g name bins
            (if b.has_tls then sub64 offset b.file_tls.p_memsz else offset) h,
      )
      refl

tls_sym_offset-Agree :
    (space : TlsSpace) (m g : Mem) (bins : List ElfBinary) (name : Str)
    → Agree m g bins
    → tls_sym_offset space m bins name ≡ tls_sym_offset space g bins name
unfolding tls_sym_offset
tls_sym_offset-Agree space m g bins name h =
    rw (tls_offset_from-Agree m g name bins 0 h, tls_sym_offset) refl

-- Offsets are words.
tls_offset_from-lt :
    (m : Mem) (name : Str) (bins : List ElfBinary) (offset found : ℕ)
    → tls_offset_from m name offset bins ≡ some found
    → found < 2 ^ 64
unfolding tls_offset_from
tls_offset_from-lt m name [] offset found h = cc
tls_offset_from-lt m name (b ∷ bins) offset found h =
    elim (Option-cases (first_tls m name b b.symtabs)) [
      | inl e ↦
          tls_offset_from-lt m name bins
            (if b.has_tls then sub64 offset b.file_tls.p_memsz else offset) found
            (rw (e, tls_offset_from) at h)
      | inr (v, e) ↦
          subst (λ (x : ℕ). x < 2 ^ 64) (some-injective _ _ (rw (e, tls_offset_from) at h))
            (omega arith)
    ]

tls_sym_offset-lt :
    (space : TlsSpace) (m : Mem) (bins : List ElfBinary) (name : Str) (offset : ℕ)
    → tls_sym_offset space m bins name ≡ ok offset
    → offset < 2 ^ 64
unfolding tls_sym_offset
tls_sym_offset-lt space m bins name offset h = elim (Option-cases (tls_offset_from m name 0 bins)) [
  | inr (v, e) ↦
      subst (λ (x : ℕ). x < 2 ^ 64) (ok-injective (rw (e, tls_sym_offset) at h))
        (tls_offset_from-lt m name bins 0 v e)
  | inl e ↦ elim (Option-cases (space.libc_variables name)) [
    | inr (a, f) ↦
        subst (λ (x : ℕ). x < 2 ^ 64) (ok-injective (rw (e, f, tls_sym_offset) at h)) (omega arith)
    | inl f ↦ absurd (ground arith)
  ]
]

apply_tpoff_value :
    (libc : Libc) (bins : List ElfBinary) (slot offset : ℕ) (name : Str) (m m' : Mem)
    → apply_tpoff libc bins slot name m ≡ ok m'
    → tls_sym_offset libc.space m bins name ≡ ok offset
    → read64 m' slot ≡ offset
unfolding apply_tpoff
apply_tpoff_value libc bins slot offset name m m' h found =
    ap (λ (g : Mem). read64 g slot) (sym (ok-injective (rw found at h)))
    ∙ read64-write64 m slot offset (tls_sym_offset-lt libc.space m bins name offset found)

apply_case_tpoff :
    (libc : Libc) (bins : List ElfBinary) (bin : ElfBinary) (r : Elf64Rela) (name : Str) (m : Mem)
    → r_type r ≡ tpoff64
    → apply_case libc bins bin r name m (case_of (r_type r))
      ≡ apply_tpoff libc bins (reloc_addr bin r) name m
unfolding apply_case case_of
apply_case_tpoff libc bins bin r name m kind = rw (kind, apply_case) refl

-- After the relocations of a binary have run, the word in the slot of an R_X86_64_TPOFF64 entry
-- leads from the thread pointer to the place of the variable in the block of `b`, if `b` is the
-- first binary that defines the variable, at a value inside its block, and the blocks up to it
-- fit into the array, which does not wrap; provided that no later
-- entry reaches the slot and no earlier one the names of the symbols, which are terminated strings. An
-- entry is taken to reach eight bytes, and one of type R_X86_64_COPY `bound` bytes, where `bound` is 8
-- and the size of every symbol at least.
pub thread_slot-address :
    (libc : Libc) (bin : ElfBinary) (bound : ℕ) (before : List ElfBinary) (b : ElfBinary)
    (behind : List ElfBinary) (xs ys : List Elf64Rela) (r : Elf64Rela) (m m' : Mem) (i : ℕ)
    (s : Elf64Sym) (value : ℕ)
    → 8 ≤ bound
    → MaxSize bound (before ++ b ∷ behind)
    → relocate_relas libc (before ++ b ∷ behind) bin (xs ++ r ∷ ys) m ≡ ok m'
    → r_type r ≡ tpoff64
    → get_elem? (before ++ b ∷ behind) i ≡ some bin
    → get_elem? bin.symtabs (r_sym r) ≡ some s
    → NamesClear m (areas bin bound xs) (before ++ b ∷ behind)
    → All (Misses bin bound (reloc_addr bin r)) ys
    → libc.space.block + 8192 ≤ 2 ^ 64
    → All (NoVariable m (sym_name m bin s)) before
    → first_tls m (sym_name m bin s) b b.symtabs ≡ some value
    → value < b.file_tls.p_memsz
    → tls_total before + b.file_tls.p_memsz ≤ tls_space
    → add64 (libc.space.block + tls_space) (read64 m' (reloc_addr bin r))
      ≡ libc.space.block + tls_space - tls_total before - b.file_tls.p_memsz + value
thread_slot-address libc bin bound before b behind xs ys r m m' i s value word sizes h kind among at
      clear apart room missing found inside fits =
    let bins : List ElfBinary = before ++ b ∷ behind in
    let name : Str = sym_name m bin s in
    let (offset, is_offset, leads) =
      tls_sym_offset-address libc.space m name before b behind value room missing found inside
        fits in
    let t = entry_step libc bins bin bound word sizes xs ys r m m' i s h among at clear in
    let there =
      later_keeps libc bins bin bound word sizes (reloc_addr bin r) ys t.after m' t.rest apart in
    let here =
      apply_tpoff_value libc bins (reloc_addr bin r) offset name t.before t.after
        (sym (apply_case_tpoff libc bins bin r name t.before kind) ∙ t.applied)
        (sym (tls_sym_offset-Agree libc.space m t.before bins name t.agree) ∙ is_offset) in
    rw (there ∙ here) leads
