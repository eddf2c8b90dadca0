-- ===== src/Binary/Dynamic/Layout.antt =====
-- ParseDynamic moves nothing: the binary's addresses, headers and TLS segment stay.
use sloader.Base.{ℕ, ◌≡◌, ◌∙◌, refl, Bool, true, false, List, [], ◌∷◌, if◌then◌else◌}
use sloader.Result.{Result}
use sloader.Result.Ensures.{Ensures, returns, fails, bind, checked, branch, ensures_rules}
use sloader.Memory.{Mem}
use sloader.Elf.{Elf64Dyn}
use sloader.Binary.{ElfBinary}
use sloader.Binary.Dynamic.{
  dyn_string, dyn_strings, dyn_number, dyn_entry, dyn_entries, parse_relas, parse_pltrelas,
  parse_symbols, parse_entries, parse_dynamic,
}

-- Which file the binary is, where it is loaded, and what its headers say.
pub record SameLayout (b b' : ElfBinary) : Type 0 where
  pub path : b'.path ≡ b.path
  pub base_addr : b'.base_addr ≡ b.base_addr
  pub end_addr : b'.end_addr ≡ b.end_addr
  pub file_phdrs : b'.file_phdrs ≡ b.file_phdrs
  pub ehdr : b'.ehdr ≡ b.ehdr
  pub has_tls : b'.has_tls ≡ b.has_tls
  pub file_tls : b'.file_tls ≡ b.file_tls

same : (b : ElfBinary) → SameLayout b b
same b = record {
  path = refl;
  base_addr = refl;
  end_addr = refl;
  file_phdrs = refl;
  ehdr = refl;
  has_tls = refl;
  file_tls = refl;
}

SameLayout-trans : (b c d : ElfBinary) → SameLayout b c → SameLayout c d → SameLayout b d
SameLayout-trans b c d p q = record {
  path = q.path ∙ p.path;
  base_addr = q.base_addr ∙ p.base_addr;
  end_addr = q.end_addr ∙ p.end_addr;
  file_phdrs = q.file_phdrs ∙ p.file_phdrs;
  ehdr = q.ehdr ∙ p.ehdr;
  has_tls = q.has_tls ∙ p.has_tls;
  file_tls = q.file_tls ∙ p.file_tls;
}

if_same :
    (b : ElfBinary) (c : Bool) {x y : ElfBinary}
    → SameLayout b x
    → SameLayout b y
    → SameLayout b (if c then x else y)
if_same b true p q = p
if_same b false p q = q

dyn_number-SameLayout : (tag v : ℕ) (b : ElfBinary) → SameLayout b (dyn_number tag v b)
unfolding dyn_number
dyn_number-SameLayout tag v b = search (if_same, same) depth 12

dyn_entry-SameLayout :
    (m : Mem) (dyn : Elf64Dyn) (b : ElfBinary) → Ensures (SameLayout b) (dyn_entry m dyn b)
unfolding dyn_entry
dyn_entry-SameLayout m dyn b = search (returns, checked, branch, dyn_number-SameLayout) depth 20

dyn_string-SameLayout : (dyn : Elf64Dyn) (b : ElfBinary) → SameLayout b (dyn_string dyn b)
unfolding dyn_string
dyn_string-SameLayout dyn b = search (if_same, same)

dyn_strings-SameLayout : (dyns : List Elf64Dyn) (b : ElfBinary) → SameLayout b (dyn_strings dyns b)
unfolding dyn_strings
dyn_strings-SameLayout [] b = same b
dyn_strings-SameLayout (dyn ∷ rest) b =
    SameLayout-trans b (dyn_string dyn b) _ (dyn_string-SameLayout dyn b)
      (dyn_strings-SameLayout rest (dyn_string dyn b))

-- Two runs in a row.
in_turn :
    {b c : ElfBinary} {r : Result ElfBinary}
    → SameLayout b c
    → Ensures (SameLayout c) r
    → Ensures (SameLayout b) r
in_turn p (returns q) = returns (SameLayout-trans _ _ _ p q)
in_turn p fails = fails

dyn_entries-SameLayout :
    (m : Mem) (dyns : List Elf64Dyn) (b : ElfBinary) → Ensures (SameLayout b) (dyn_entries m dyns b)
unfolding dyn_entries
dyn_entries-SameLayout m [] b = returns (same b)
dyn_entries-SameLayout m (dyn ∷ rest) b =
    bind (dyn_entry-SameLayout m dyn b) (λ c p. in_turn p (dyn_entries-SameLayout m rest c))

parse_relas-SameLayout : (m : Mem) (b : ElfBinary) → Ensures (SameLayout b) (parse_relas m b)
unfolding parse_relas
parse_relas-SameLayout m b = search (ensures_rules, same)

parse_pltrelas-SameLayout : (m : Mem) (b : ElfBinary) → Ensures (SameLayout b) (parse_pltrelas m b)
unfolding parse_pltrelas
parse_pltrelas-SameLayout m b = search (ensures_rules, same)

parse_symbols-SameLayout : (m : Mem) (b : ElfBinary) → Ensures (SameLayout b) (parse_symbols m b)
unfolding parse_symbols
parse_symbols-SameLayout m b = search (ensures_rules, same)

parse_entries-SameLayout :
    (m : Mem) (dyns : List Elf64Dyn) (b c : ElfBinary)
    → SameLayout b c
    → Ensures (SameLayout b) (parse_entries m dyns c)
unfolding parse_entries
parse_entries-SameLayout m dyns b c p = in_turn p (
    bind (dyn_entries-SameLayout m dyns c) λ b2 p2. in_turn p2 (
      bind (parse_relas-SameLayout m b2) λ b3 p3. in_turn p3 (
        bind (parse_pltrelas-SameLayout m b3) λ b4 p4. in_turn p4 (parse_symbols-SameLayout m b4))))

-- If ParseDynamic returns, the path, the base and end addresses, the ELF and program headers, and the TLS segment
-- of the binary are what they were.
pub parse_dynamic-SameLayout :
    (m : Mem) (b : ElfBinary) → Ensures (SameLayout b) (parse_dynamic m b)
unfolding parse_dynamic
parse_dynamic-SameLayout m b = search (checked, parse_entries-SameLayout, dyn_strings-SameLayout)
