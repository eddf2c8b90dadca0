-- ===== src/Loader/Relocate/Resolve.antt =====
-- What a name resolves to, and that the index checks on the way always hold.
use sloader.Base.{ℕ, ◌≡◌, inl, inr, false, Option, none, some, List, Str, Option-cases, get_elem?}
use sloader.Base.Words.{add64}
use sloader.Result.{Result, ok}
use sloader.Memory.{Mem}
use sloader.Elf.{Elf64Sym}
use sloader.Binary.{ElfBinary, get_symbol_addr}
use sloader.Loader.Symbols.{is_defined, is_weak_undefined, search_sym}
use sloader.Loader.Symbols.First.{Entry, NoneFits, Resolves, search_sym-Resolves}
use sloader.Loader.Relocate.{Libc, at_index, found_addr, resolve}

-- The indices that SearchSym returns are those of a symbol.
pub Resolves-Entry :
    (m : Mem) (bins : List ElfBinary) (name : Str) (start i j : ℕ)
    → Resolves m bins name start (some (i, j))
    → (b : ElfBinary) × (s : Elf64Sym) × Entry bins i j b s
Resolves-Entry m bins name start i j (inl f) = (f.b, f.s, f.entry)
Resolves-Entry m bins name start i j (inr (none_defined, f)) = (f.b, f.s, f.entry)

pub get_symbol_addr-ok :
    (b : ElfBinary) (j : ℕ) (s : Elf64Sym)
    → get_elem? b.symtabs j ≡ some s
    → get_symbol_addr b j ≡ ok (add64 s.st_value b.base_addr)
unfolding get_symbol_addr
get_symbol_addr-ok b j s e = rw (e, get_symbol_addr)

found_addr-ok :
    (bins : List ElfBinary) (i j : ℕ) (b : ElfBinary) (s : Elf64Sym)
    → Entry bins i j b s
    → found_addr bins (some (i, j)) ≡ ok (some (add64 s.st_value b.base_addr))
unfolding found_addr
found_addr-ok bins i j b s e = rw (e.binary, at_index) (rw (get_symbol_addr-ok b j s e.symbol))

-- The outcomes of looking a name up.
pub data Lookup (libc : Libc) (m : Mem) (bins : List ElfBinary) (name : Str)
    : Result (Option ℕ) → Type 0 where
  from_libc : (addr : ℕ) → libc.libc_map name ≡ some addr → Lookup libc m bins name (ok (some addr))
  from_binary :
      (i j : ℕ) (b : ElfBinary) (s : Elf64Sym)
      → libc.libc_map name ≡ none
      → Resolves m bins name 0 (some (i, j))
      → Entry bins i j b s
      → Lookup libc m bins name (ok (some (add64 s.st_value b.base_addr)))
  not_found :
      libc.libc_map name ≡ none
      → NoneFits (is_defined m name) 0 bins
      → NoneFits (is_weak_undefined m name) 0 bins
      → Lookup libc m bins name (ok none)

module _ (libc : Libc) (m : Mem) (bins : List ElfBinary) (name : Str)
    (absent : libc.libc_map name ≡ none) where
  found_addr-Lookup :
      (o : Option (ℕ × ℕ)) → Resolves m bins name 0 o → Lookup libc m bins name (found_addr bins o)
  unfolding found_addr
  found_addr-Lookup none (d, w) = not_found absent d w
  found_addr-Lookup (some (i, j)) h =
      let (b, s, e) = Resolves-Entry m bins name 0 i j h in
      rw (found_addr-ok bins i j b s e) (from_binary i j b s absent h e)

-- A lookup never fails: it gives libc's own address if there is one, else the address of the symbol
-- that SearchSym promises, and nothing exactly if there is no such symbol.
pub resolve-Lookup :
    (libc : Libc) (m : Mem) (bins : List ElfBinary) (name : Str)
    → Lookup libc m bins name (resolve libc m bins name)
unfolding resolve
resolve-Lookup libc m bins name = elim (Option-cases (libc.libc_map name)) [
  | inr (a, e) ↦ rw (e, resolve) (from_libc a e)
  | inl e ↦
      rw (e, resolve)
        (found_addr-Lookup libc m bins name e (search_sym m bins name false)
          (search_sym-Resolves m bins name false))
]
