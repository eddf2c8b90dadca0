-- ===== src/Loader/Relocate/Frame.antt =====
-- What relocation leaves alone.
use sloader.Base.{
  ℕ, ◌≤◌, ◌≡◌, ◌∙◌, sym, ap, refl, true, Option, none, some, List, [], ◌∷◌, ◌++◌, arith, All,
  All-get_elem?, All-map, if◌then◌else◌, ◌==◌, Str, elem, Bool-cases, Option-cases, inl, inr,
  get_elem?,
}
use sloader.Base.Words.{add64}
use sloader.Result.{Result, ok, >>=-eq-ok, ok-injective}
use sloader.Memory.{Mem, write64, memcpy}
use sloader.Memory.Laws.{Outside, write64-Outside, copy_from-Outside}
use sloader.Elf.{Elf64Rela, Elf64Sym, r_sym, r_type}
use sloader.Elf.Relocs.{copy}
use sloader.Binary.{ElfBinary}
use sloader.Loader.{DynLoader}
use sloader.Loader.Symbols.{sym_name, search_sym, tls_sym_offset}
use sloader.Loader.Relocate.{
  Libc, at_index, resolve, reloc_addr, write_resolved, apply_symbol, copy_source, apply_copy,
  apply_tpoff, Case, symbol_address, base_relative, symbol_plus_addend, thread_offset,
  module_number, no_action, copied, unsupported, case_of, apply_case, relocate_rela, relocate_relas,
  relocate_binaries, relocate,
}

-- No symbol is larger than `bound`.
abbrev pub MaxSize : ℕ → List ElfBinary → Type 0
MaxSize bound bins = All (λ b. All (λ s. s.st_size ≤ bound) b.symtabs) bins

pub at_index-eq-ok {ℓ} :
    {A : Type ℓ} (xs : List A) (i : ℕ) {x : A} → at_index xs i ≡ ok x → get_elem? xs i ≡ some x
unfolding at_index
at_index-eq-ok xs i h = ground arith

write_resolved-Outside :
    (m : Mem) (slot addend : ℕ) (addr : Option ℕ) (x : ℕ)
    → Outside slot 8 x
    → write_resolved m slot addend addr x ≡ m x
unfolding write_resolved
write_resolved-Outside m slot addend none x o = refl
write_resolved-Outside m slot addend (some addr) x o =
    write64-Outside m slot (add64 addr addend) x o

-- How many bytes a relocation writes at most: eight, but for R_X86_64_COPY, which writes a symbol's size.
unfoldable pub reach : ℕ → Elf64Rela → ℕ
reach bound r = if r_type r == copy then bound else 8

case_reach : ℕ → Case → ℕ
case_reach bound copied = bound
case_reach bound c = 8

reach-case : (bound : ℕ) (r : Elf64Rela) → reach bound r ≡ case_reach bound (case_of (r_type r))
unfolding reach case_reach case_of
reach-case bound r = by_type (r_type r)
  where
    by_type : (type : ℕ) → (if type == copy then bound else 8) ≡ case_reach bound (case_of type)
    by_type type = ground arith

reach-le : (bound : ℕ) (r : Elf64Rela) → 8 ≤ bound → reach bound r ≤ bound
unfolding reach
reach-le bound r h = ground (arith, h)

Outside-le : (slot short long x : ℕ) → short ≤ long → Outside slot long x → Outside slot short x
Outside-le slot short long x le o = omega (arith, le, o)

module _ (libc : Libc) (bins : List ElfBinary) (bound : ℕ) (word : 8 ≤ bound)
    (sizes : MaxSize bound bins) where
  copy_source-le :
      (m : Mem) (name : Str) (src size : ℕ)
      → copy_source libc m bins name ≡ ok (src, size)
      → size ≤ bound
  unfolding copy_source
  copy_source-le m name src size h = elim (Option-cases (libc.libc_map name)) [
    | inr (a, e) ↦ ground arith
    | inl e ↦ elim (Option-cases (search_sym m bins name true)) [
      | inl e' ↦ absurd (ground arith)
      | inr ((i, j), e') ↦
          let (b, found, h1) = >>=-eq-ok (at_index bins i) _ (rw (e, e', copy_source) at h) in
          let (sym, at, h2) = >>=-eq-ok (at_index b.symtabs j) _ h1 in
          let small : sym.st_size ≤ bound =
            All-get_elem? (λ (t : Elf64Sym). t.st_size ≤ bound) b.symtabs j
              (All-get_elem? (λ (c : ElfBinary). All (λ t. t.st_size ≤ bound) c.symtabs) bins i
                sizes (at_index-eq-ok bins i found))
              (at_index-eq-ok b.symtabs j at) in
          ground arith
    ]
  ]

  apply_symbol-Outside :
      (slot addend : ℕ) (name : Str) (m m' : Mem) (x : ℕ)
      → apply_symbol libc bins slot addend name m ≡ ok m'
      → Outside slot 8 x
      → m' x ≡ m x
  unfolding apply_symbol
  apply_symbol-Outside slot addend name m m' x h o =
      let (addr, found, e) = >>=-eq-ok (resolve libc m bins name) _ h in
      ap (λ (g : Mem). g x) (sym (ok-injective e)) ∙ write_resolved-Outside m slot addend addr x o

  apply_copy-Outside :
      (dest : ℕ) (name : Str) (m m' : Mem) (x : ℕ)
      → apply_copy libc bins dest name m ≡ ok m'
      → Outside dest bound x
      → m' x ≡ m x
  unfolding apply_copy memcpy
  apply_copy-Outside dest name m m' x h o =
      let ((src, size), found, e) = >>=-eq-ok (copy_source libc m bins name) _ h in
      let small : size ≤ bound = copy_source-le m name src size found in
      ap (λ (g : Mem). g x) (sym (ok-injective e))
      ∙ copy_from-Outside m m dest src size x (omega arith)

  apply_tpoff-Outside :
      (slot : ℕ) (name : Str) (m m' : Mem) (x : ℕ)
      → apply_tpoff libc bins slot name m ≡ ok m'
      → Outside slot 8 x
      → m' x ≡ m x
  unfolding apply_tpoff
  apply_tpoff-Outside slot name m m' x h o =
      let (offset, found, e) = >>=-eq-ok (tls_sym_offset libc.space m bins name) _ h in
      ap (λ (g : Mem). g x) (sym (ok-injective e)) ∙ write64-Outside m slot offset x o

  write-Outside :
      (slot v : ℕ) (m m' : Mem) (x : ℕ)
      → ◌≡◌ {A = Result Mem} (ok (write64 m slot v)) (ok m')
      → Outside slot 8 x
      → m' x ≡ m x
  write-Outside slot v m m' x e o =
      ap (λ (g : Mem). g x) (sym (ok-injective e)) ∙ write64-Outside m slot v x o

  apply_case-Outside :
      (bin : ElfBinary) (r : Elf64Rela) (name : Str) (m m' : Mem) (x : ℕ) (c : Case)
      → apply_case libc bins bin r name m c ≡ ok m'
      → Outside (reloc_addr bin r) (case_reach bound c) x
      → m' x ≡ m x
  unfolding apply_case case_reach
  apply_case-Outside bin r name m m' x symbol_address h o =
      apply_symbol-Outside (reloc_addr bin r) 0 name m m' x h o
  apply_case-Outside bin r name m m' x base_relative h o =
      write-Outside (reloc_addr bin r) (add64 bin.base_addr r.r_addend) m m' x h o
  apply_case-Outside bin r name m m' x symbol_plus_addend h o =
      apply_symbol-Outside (reloc_addr bin r) r.r_addend name m m' x h o
  apply_case-Outside bin r name m m' x thread_offset h o =
      apply_tpoff-Outside (reloc_addr bin r) name m m' x h o
  apply_case-Outside bin r name m m' x module_number h o =
      write-Outside (reloc_addr bin r) 1 m m' x h o
  apply_case-Outside bin r name m m' x no_action h o = ap (λ (g : Mem). g x) (sym (ok-injective h))
  apply_case-Outside bin r name m m' x copied h o =
      apply_copy-Outside (reloc_addr bin r) name m m' x h o
  apply_case-Outside bin r name m m' x unsupported h o = cc

  relocate_rela-Reach :
      (bin : ElfBinary) (r : Elf64Rela) (m m' : Mem) (x : ℕ)
      → relocate_rela libc bins bin r m ≡ ok m'
      → Outside (reloc_addr bin r) (reach bound r) x
      → m' x ≡ m x
  unfolding relocate_rela
  relocate_rela-Reach bin r m m' x h o =
      let (s, found, e) = >>=-eq-ok (at_index bin.symtabs (r_sym r)) _ h in
      apply_case-Outside bin r (sym_name m bin s) m m' x (case_of (r_type r)) e
        (rw (reach-case bound r) at o)

  pub relocate_relas-Reach :
      (bin : ElfBinary) (rs : List Elf64Rela) (m m' : Mem) (x : ℕ)
      → relocate_relas libc bins bin rs m ≡ ok m'
      → All (λ r. Outside (reloc_addr bin r) (reach bound r) x) rs
      → m' x ≡ m x
  unfolding relocate_relas
  relocate_relas-Reach bin [] m m' x h o = ap (λ (g : Mem). g x) (sym (ok-injective h))
  relocate_relas-Reach bin (r ∷ rs) m m' x h o =
      let (m1, first, rest) = >>=-eq-ok (relocate_rela libc bins bin r m) _ h in
      relocate_relas-Reach bin rs m1 m' x rest o.1 ∙ relocate_rela-Reach bin r m m1 x first o.0

  relocate_relas-Outside :
      (bin : ElfBinary) (rs : List Elf64Rela) (m m' : Mem) (x : ℕ)
      → relocate_relas libc bins bin rs m ≡ ok m'
      → All (λ r. Outside (reloc_addr bin r) bound x) rs
      → m' x ≡ m x
  relocate_relas-Outside bin rs m m' x h o = relocate_relas-Reach bin rs m m' x h (
      All-map
        (λ r k. Outside-le (reloc_addr bin r) (reach bound r) bound x (reach-le bound r word) k) rs
        o)

  relocate_binaries-Outside :
      (todo : List ElfBinary) (relocated after : List Str) (m m' : Mem) (x : ℕ)
      → relocate_binaries libc bins todo relocated m ≡ ok (after, m')
      → All (λ b. All (λ r. Outside (reloc_addr b r) bound x) (b.pltrelas ++ b.relas)) todo
      → m' x ≡ m x
  unfolding relocate_binaries
  relocate_binaries-Outside [] relocated after m m' x h o =
      ap (λ (p : List Str × Mem). p.1 x) (sym (ok-injective h))
  relocate_binaries-Outside (b ∷ todo) relocated after m m' x h o =
      elim (Bool-cases (elem b.path relocated)) [
        | inl e ↦
            relocate_binaries-Outside todo relocated after m m' x (rw (e, relocate_binaries) at h)
              o.1
        | inr e ↦
            let (m1, run, rest) =
              >>=-eq-ok (relocate_relas libc bins b (b.pltrelas ++ b.relas) m) _
                (rw (e, relocate_binaries) at h) in
            relocate_binaries-Outside todo (b.path ∷ relocated) after m1 m' x rest o.1
            ∙ relocate_relas-Outside b (b.pltrelas ++ b.relas) m m1 x run o.0
      ]

-- A byte that no relocation's target covers is what it was, where a target is `bound` bytes long and
-- `bound` is at least 8 and the size of every symbol.
pub relocate-Outside :
    (libc : Libc) (l l' : DynLoader) (m m' : Mem) (bound x : ℕ)
    → relocate libc l m ≡ ok (l', m')
    → 8 ≤ bound
    → MaxSize bound l.binaries
    → All (λ b. All (λ r. Outside (reloc_addr b r) bound x) (b.pltrelas ++ b.relas)) l.binaries
    → m' x ≡ m x
unfolding relocate
relocate-Outside libc l l' m m' bound x h word sizes o =
    let ((after, m1), run, e) =
      >>=-eq-ok (relocate_binaries libc l.binaries l.binaries l.relocated m) _ h in
    ap (λ (p : DynLoader × Mem). p.1 x) (sym (ok-injective e))
    ∙ relocate_binaries-Outside libc l.binaries bound word sizes l.binaries l.relocated after m m1 x
        run o
