-- ===== src/Loader/Queue/Paths.antt =====
-- A loaded binary is the file of the path that was asked for.
use sloader.Base.{ℕ, ◌≡◌, ◌∙◌, ap, refl, some, List, [], ◌∷◌, Str, ◌==◌, if◌then◌else◌}
use sloader.Result.{Result}
use sloader.Result.Ensures.{
  Ensures, returns, fails, bind, branch, map-Ensures, outcome, ensures_rules, when_ok,
}
use sloader.System.{System, File, Machine}
use sloader.Elf.{Elf64Phdr, Elf64Ehdr, ehdr_type_dyn, read_ehdr}
use sloader.Binary.{ElfBinary, elf_binary}
use sloader.Binary.Headers.{Construction, no_file, too_short, built, elf_binary-Construction}
use sloader.Binary.Dynamic.Layout.{parse_dynamic-SameLayout}
use sloader.Binary.Load.{load_segment, load_segments, load_base, load}
use sloader.Loader.{DynLoader, load_binary}
use sloader.Loader.Queue.Closed.{Added, load_binary-Added}

-- The binary is that of the file: it has its path and its header, and stands at `base` if it is
-- position-independent.
pub record FromFile (sys : System) (path : Str) (base : ℕ) (b : ElfBinary) : Type 0 where
  pub file : File
  pub opened : sys.open_file path ≡ some file
  pub path_kept : b.path ≡ path
  pub header : b.ehdr ≡ read_ehdr file.bytes 0
  pub at_base : b.base_addr ≡ (if (read_ehdr file.bytes 0).e_type == ehdr_type_dyn then base else 0)

-- What the constructor makes of a file, before it is loaded.
abbrev Opened : System → Str → ElfBinary → Type 0
Opened sys path b =
    (f : File) × (sys.open_file path ≡ some f) × (b.path ≡ path) × (b.ehdr ≡ read_ehdr f.bytes 0)

elf_binary-Opened : (sys : System) (path : Str) → Ensures (Opened sys path) (elf_binary sys path)
elf_binary-Opened sys path = go (elf_binary-Construction sys path)
  where
    go : {r : Result ElfBinary} → Construction sys path r → Ensures (Opened sys path) r
    go (no_file e) = fails
    go (too_short f e g) = fails
    go (built f b e g h) = returns (f, e, h.path_kept, h.ehdr)

-- Path, header and base address.
abbrev identity : ElfBinary → Str × Elf64Ehdr × ℕ
identity b = (b.path, b.ehdr, b.base_addr)

abbrev SameFile : ElfBinary → ElfBinary × Machine → Type 0
SameFile b p = identity p.0 ≡ identity b

load_segment-SameFile :
    (sys : System) (ph : Elf64Phdr) (b : ElfBinary) (k : Machine)
    → Ensures (SameFile b) (load_segment sys ph b k)
unfolding load_segment
load_segment-SameFile sys ph b k = search ensures_rules

load_segments-SameFile :
    (sys : System) (phs : List Elf64Phdr) (b : ElfBinary) (k : Machine)
    → Ensures (SameFile b) (load_segments sys phs b k)
unfolding load_segments
load_segments-SameFile sys [] b k = returns refl
load_segments-SameFile sys (ph ∷ rest) b k =
    branch _
      (bind (load_segment-SameFile sys ph b k)
        (λ p e. map-Ensures (λ q f. f ∙ e) (load_segments-SameFile sys rest p.0 p.1)))
      (load_segments-SameFile sys rest b k)

load-FromFile :
    (sys : System) (path : Str) (b : ElfBinary) (base : ℕ) (k : Machine)
    → Opened sys path b
    → Ensures (λ (p : ElfBinary × ℕ × Machine). FromFile sys path base p.0) (load sys b base k)
unfolding load load_base
load-FromFile sys path b base k (f, opened, named, header) =
    bind (load_segments-SameFile sys b.file_phdrs _ k) λ p e.
      bind (parse_dynamic-SameLayout p.1.mem p.0) λ b2 same. returns (record {
        file = f;
        opened = opened;
        path_kept = same.path ∙ (ap (λ i. i.0) e ∙ named);
        header = same.ehdr ∙ (ap (λ i. i.1) e ∙ header);
        at_base =
            same.base_addr
            ∙ (ap (λ i. i.2) e
                ∙ ap (λ (h : Elf64Ehdr). if h.e_type == ehdr_type_dyn then base else 0) header);
      })

pub load_binary-FromFile :
    (sys : System) (path : Str) (l : DynLoader) (k : Machine)
    → Ensures
        (λ (p : ElfBinary × DynLoader × Machine). FromFile sys path l.next_base_addr p.0)
        (load_binary sys path l k)
unfolding load_binary
load_binary-FromFile sys path l k =
    bind (elf_binary-Opened sys path)
      λ b o. bind (load-FromFile sys path b l.next_base_addr k o) λ p f. returns f

load_binary-path :
    (sys : System) (path : Str) (l : DynLoader) (k : Machine)
    → Ensures (λ (p : ElfBinary × DynLoader × Machine). p.0.path ≡ path) (load_binary sys path l k)
load_binary-path sys path l k = map-Ensures (λ p f. f.path_kept) (load_binary-FromFile sys path l k)

-- What loading a file changes, and which file it is.
abbrev pub Adds : Str → DynLoader → ElfBinary × DynLoader × Machine → Type 0
Adds path l p = Added l p.0 p.1 × (p.0.path ≡ path)

pub load_binary-Adds :
    (sys : System) (path : Str) (l : DynLoader) (k : Machine)
    → Ensures (Adds path l) (load_binary sys path l k)
load_binary-Adds sys path l k = when_ok (load_binary sys path l k) (λ p run. (
  load_binary-Added sys path l p.1 k p.2 p.0 run,
  outcome (λ (q : ElfBinary × DynLoader × Machine). q.0.path ≡ path) _ p
      (load_binary-path sys path l k) run,
))
