-- ===== src/Binary/Headers.antt =====
-- What the constructor of ELFBinary takes from the program headers.
use sloader.Base.{
  ℕ, zero, suc, ◌+◌, ◌*◌, ◌≡◌, ◌∙◌, sym, ap, subst, refl, Bool, true, false, ◌||◌, none, some, List,
  [], ◌∷◌, ◌++◌, append-nil, append_assoc, ◌==◌, ltb, if◌then◌else◌, arith, Bool-cases,
  Option-cases, inl, inr, Str,
}
use sloader.Result.{Result, ok, err, check_failed}
use sloader.System.{System, File}
use sloader.Memory.{Mem}
use sloader.Elf.{Elf64Ehdr, Elf64Phdr, read_ehdr, read_phdr}
use sloader.Elf.Tags.{pt_dynamic, pt_tls}
use sloader.Binary.{ElfBinary, no_phdr, members, add_phdr, read_phdrs, elf_binary}

-- The `n` program headers from index `i` on.
unfoldable pub phdrs_from : Mem → Elf64Ehdr → ℕ → ℕ → List Elf64Phdr
phdrs_from file ehdr zero i = []
phdrs_from file ehdr (suc n) i =
    read_phdr file (ehdr.e_phoff + i * ehdr.e_phentsize) ∷ phdrs_from file ehdr n (i + 1)

-- The last header of a type.
unfoldable pub last_phdr : ℕ → Elf64Phdr → List Elf64Phdr → Elf64Phdr
last_phdr type default [] = default
last_phdr type default (ph ∷ rest) = last_phdr type (if ph.p_type == type then ph else default) rest

unfoldable pub any_phdr : ℕ → List Elf64Phdr → Bool
any_phdr type [] = false
any_phdr type (ph ∷ rest) = ph.p_type == type || any_phdr type rest

-- The members after the headers `phs`.
abbrev with_phdrs : List Elf64Phdr → ElfBinary → ElfBinary
with_phdrs phs b = record b {
  file_phdrs = b.file_phdrs ++ phs;
  file_dynamic = last_phdr pt_dynamic b.file_dynamic phs;
  has_tls = b.has_tls || any_phdr pt_tls phs;
  file_tls = last_phdr pt_tls b.file_tls phs;
}

not_both : (type : ℕ) → (type == pt_dynamic) ≡ true → (type == pt_tls) ≡ false
not_both type h = ground (arith, h)

or_assoc : (a b c : Bool) → (a || b || c) ≡ (a || (b || c))
or_assoc true b c = refl
or_assoc false b c = refl

or_false : (a : Bool) → (a || false) ≡ a
or_false true = refl
or_false false = refl

or_true : (a : Bool) → (a || true) ≡ true
or_true true = refl
or_true false = refl

add_phdr-with : (ph : Elf64Phdr) (b : ElfBinary) → add_phdr ph b ≡ with_phdrs (ph ∷ []) b
unfolding add_phdr last_phdr any_phdr
add_phdr-with ph b = elim (Bool-cases (ph.p_type == pt_dynamic)) [
  | inl e ↦ rw (e, not_both ph.p_type e, or_false b.has_tls) refl
  | inr e ↦ elim (Bool-cases (ph.p_type == pt_tls)) [
    | inl f ↦ rw (e, f, or_true b.has_tls) refl
    | inr f ↦ rw (e, f, or_false b.has_tls) refl
  ]
]

with_phdrs-cons :
    (ph : Elf64Phdr) (phs : List Elf64Phdr) (b : ElfBinary)
    → with_phdrs phs (with_phdrs (ph ∷ []) b) ≡ with_phdrs (ph ∷ phs) b
unfolding last_phdr any_phdr
with_phdrs-cons ph phs b =
    rw
      (
        append_assoc b.file_phdrs (ph ∷ []) phs,
        or_false (ph.p_type == pt_tls),
        or_assoc b.has_tls (ph.p_type == pt_tls) (any_phdr pt_tls phs),
      )
      refl

read_phdrs-with :
    (n i : ℕ) (b : ElfBinary) → read_phdrs n i b ≡ with_phdrs (phdrs_from b.file b.ehdr n i) b
unfolding read_phdrs phdrs_from last_phdr any_phdr
read_phdrs-with zero i b = rw (append-nil b.file_phdrs, or_false b.has_tls) refl
read_phdrs-with (suc n) i b =
    let ph = read_phdr b.file (b.ehdr.e_phoff + i * b.ehdr.e_phentsize) in
    ap (read_phdrs n (i + 1)) (add_phdr-with ph b)
    ∙ (read_phdrs-with n (i + 1) (with_phdrs (ph ∷ []) b)
        ∙ with_phdrs-cons ph (phdrs_from b.file b.ehdr n (i + 1)) b)

-- The binary that the constructor makes of a file.
pub record Built (sys : System) (path : Str) (file : Mem) (b : ElfBinary) : Type 0 where
  pub path_kept : b.path ≡ path
  pub file_kept : b.file ≡ file
  pub not_loaded : b.base_addr ≡ 0
  pub ehdr : b.ehdr ≡ read_ehdr file 0
  pub file_phdrs : b.file_phdrs ≡ phdrs_from file (read_ehdr file 0) (read_ehdr file 0).e_phnum 0
  pub file_dynamic : b.file_dynamic ≡ last_phdr pt_dynamic no_phdr b.file_phdrs
  pub has_tls : b.has_tls ≡ any_phdr pt_tls b.file_phdrs
  pub file_tls : b.file_tls ≡ last_phdr pt_tls sys.uninitialised b.file_phdrs

read_phdrs-Built :
    (sys : System) (path : Str) (file : Mem)
    → Built sys path file
        (read_phdrs (members sys path file).ehdr.e_phnum 0 (members sys path file))
unfolding members
read_phdrs-Built sys path file =
    let b = members sys path file in
    subst (Built sys path file) (sym (read_phdrs-with b.ehdr.e_phnum 0 b)) (record {
      path_kept = refl;
      file_kept = refl;
      not_loaded = refl;
      ehdr = refl;
      file_phdrs = refl;
      file_dynamic = refl;
      has_tls = refl;
      file_tls = refl;
    })

-- How the constructor ends.
pub data Construction (sys : System) (path : Str) : Result ElfBinary → Type 0 where
  no_file : sys.open_file path ≡ none → Construction sys path (err check_failed)
  too_short :
      (f : File)
      → sys.open_file path ≡ some f
      → ltb 24 f.size ≡ false
      → Construction sys path (err check_failed)
  built :
      (f : File) (b : ElfBinary)
      → sys.open_file path ≡ some f
      → ltb 24 f.size ≡ true
      → Built sys path f.bytes b
      → Construction sys path (ok b)

-- The constructor fails if the file cannot be opened or has 24 bytes at most. Otherwise the binary has
-- the program headers of the file, in order, with the last PT_DYNAMIC and the last PT_TLS among them
-- as its dynamic and its TLS segment, and it has TLS exactly if there is one.
pub elf_binary-Construction :
    (sys : System) (path : Str) → Construction sys path (elf_binary sys path)
unfolding elf_binary
elf_binary-Construction sys path = elim (Option-cases (sys.open_file path)) [
  | inl e ↦ rw (e, elf_binary) (no_file e)
  | inr (f, e) ↦ elim (Bool-cases (ltb 24 f.size)) [
    | inl g ↦ rw (e, g, elf_binary) (built f _ e g (read_phdrs-Built sys path f.bytes))
    | inr g ↦ rw (e, g, elf_binary) (too_short f e g)
  ]
]
