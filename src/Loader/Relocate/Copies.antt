-- ===== src/Loader/Relocate/Copies.antt =====
-- What stands in the place of a copied object when the relocations of its binary are done.
use sloader.Base.{
  ℕ, ◌+◌, ◌-◌, ◌≤◌, ◌<◌, ◌≡◌, ◌∙◌, sym, ap, refl, true, none, some, List, ◌∷◌, ◌++◌, Str, get_elem?,
  arith,
}
use sloader.Base.Words.{add64}
use sloader.Result.{ok, ok-injective}
use sloader.Memory.{Mem, memcpy, copy_from}
use sloader.Elf.{Elf64Rela, Elf64Sym, r_sym, r_type}
use sloader.Elf.Relocs.{copy}
use sloader.Binary.{ElfBinary}
use sloader.Loader.Symbols.{sym_name, search_sym}
use sloader.Loader.Symbols.First.{Entry}
use sloader.Loader.Symbols.Names.{Spared, Agree, NamesClear, search_sym-Agree}
use sloader.Loader.Relocate.{
  Libc, reloc_addr, copy_source, apply_copy, case_of, apply_case, relocate_relas,
}
use sloader.Loader.Relocate.Frame.{MaxSize}
use sloader.Loader.Relocate.Stuck.{at_index-some}
use sloader.Loader.Relocate.Values.{areas, relocate_relas-DiffersAt, entry_step}

-- Where the object of a name is copied from, and its size: eight bytes at the address of libc, or the
-- object that SearchSym finds behind the executable.
pub data CopiedFrom (libc : Libc) (m : Mem) (bins : List ElfBinary) (name : Str)
    : ℕ → ℕ → Type 0 where
  of_libc : (addr : ℕ) → libc.libc_map name ≡ some addr → CopiedFrom libc m bins name addr 8
  of_binary :
      (i j : ℕ) (b : ElfBinary) (s : Elf64Sym)
      → libc.libc_map name ≡ none
      → search_sym m bins name true ≡ some (i, j)
      → Entry bins i j b s
      → CopiedFrom libc m bins name (add64 b.base_addr s.st_value) s.st_size

copy_source-found :
    (libc : Libc) (m g : Mem) (bins : List ElfBinary) (name : Str) (src size : ℕ)
    → Agree m g bins
    → CopiedFrom libc m bins name src size
    → copy_source libc g bins name ≡ ok (src, size)
unfolding copy_source
copy_source-found libc m g bins name src size agree (of_libc addr e) = rw (e, copy_source) refl
copy_source-found libc m g bins name src size agree (of_binary i j b s absent found entry) =
    let found' : search_sym g bins name true ≡ some (i, j) =
      sym (search_sym-Agree m g name bins true agree) ∙ found in
    rw (absent, found', copy_source)
      (rw (at_index-some bins i entry.binary) (rw (at_index-some b.symtabs j entry.symbol) refl))

memcpy-byte : (m : Mem) (dest src n k : ℕ) → k < n → memcpy m dest src n (dest + k) ≡ m (src + k)
unfolding memcpy copy_from
memcpy-byte m dest src n k h =
    let back : dest + k - dest ≡ k = omega arith in rw back (ground (arith, h))

apply_copy-byte :
    (libc : Libc) (bins : List ElfBinary) (dest src size k : ℕ) (name : Str) (m m' : Mem)
    → apply_copy libc bins dest name m ≡ ok m'
    → copy_source libc m bins name ≡ ok (src, size)
    → k < size
    → m' (dest + k) ≡ m (src + k)
unfolding apply_copy
apply_copy-byte libc bins dest src size k name m m' h found lt =
    ap (λ (g : Mem). g (dest + k)) (sym (ok-injective (rw found at h)))
    ∙ memcpy-byte m dest src size k lt

apply_case-copy :
    (libc : Libc) (bins : List ElfBinary) (bin : ElfBinary) (r : Elf64Rela) (name : Str) (m : Mem)
    → r_type r ≡ copy
    → apply_case libc bins bin r name m (case_of (r_type r))
      ≡ apply_copy libc bins (reloc_addr bin r) name m
unfolding apply_case case_of
apply_case-copy libc bins bin r name m kind = rw (kind, apply_case) refl

-- After the relocations of a binary have run, byte `k` of the place of an R_X86_64_COPY entry is the
-- byte of the object that the name stood for before they ran: eight bytes at libc's address, or the
-- symbol that SearchSym finds behind the executable, of that symbol's size; provided that no
-- earlier entry reaches the byte that is copied or the names of the symbols, which are terminated
-- strings, and no later entry the byte that is written. An entry is taken to reach eight bytes, and one
-- of type R_X86_64_COPY `bound` bytes, where `bound` is 8 and the size of every symbol at least.
pub copied_byte :
    (libc : Libc) (bins : List ElfBinary) (bin : ElfBinary) (bound : ℕ) (xs ys : List Elf64Rela)
    (r : Elf64Rela) (m m' : Mem) (i : ℕ) (s : Elf64Sym) (src size k : ℕ)
    → 8 ≤ bound
    → MaxSize bound bins
    → relocate_relas libc bins bin (xs ++ r ∷ ys) m ≡ ok m'
    → r_type r ≡ copy
    → get_elem? bins i ≡ some bin
    → get_elem? bin.symtabs (r_sym r) ≡ some s
    → CopiedFrom libc m bins (sym_name m bin s) src size
    → k < size
    → NamesClear m (areas bin bound xs) bins
    → Spared (areas bin bound xs) (src + k)
    → Spared (areas bin bound ys) (reloc_addr bin r + k)
    → m' (reloc_addr bin r + k) ≡ m (src + k)
copied_byte libc bins bin bound xs ys r m m' i s src size k word sizes h kind among at from lt clear
      unread unwritten =
    let name : Str = sym_name m bin s in
    let t = entry_step libc bins bin bound word sizes xs ys r m m' i s h among at clear in
    let found = copy_source-found libc m t.before bins name src size t.agree from in
    relocate_relas-DiffersAt libc bins bin bound word sizes ys t.after m' t.rest
      (reloc_addr bin r + k) unwritten
    ∙ (apply_copy-byte libc bins (reloc_addr bin r) src size k name t.before t.after
          (sym (apply_case-copy libc bins bin r name t.before kind) ∙ t.applied) found lt
        ∙ relocate_relas-DiffersAt libc bins bin bound word sizes xs m t.before t.reached (src + k)
            unread)
