-- ===== src/Binary/Segments/Pages.antt =====
-- The pages of one segment, and what loading it does.
use sloader.Base.{
  ℕ, ◌+◌, ◌*◌, ◌/◌, ◌≤◌, ◌<◌, ◌^◌, ◌≡◌, sym, ap, subst, refl, [], ◌∷◌, ◌++◌, ◌==◌, leb, arith,
  ==_iff,
}
use sloader.Base.Words.{add64, sub64, page_down}
use sloader.Result.{ok, check-eq-ok, ok-injective}
use sloader.System.{System, Machine, map_anonymous}
use sloader.Memory.{copy_from, memset}
use sloader.Elf.{Elf64Phdr}
use sloader.Binary.{ElfBinary}
use sloader.Binary.Load.{segment_prot, load_segment, mmap_start, mmap_end}

-- What loading one segment does when it succeeds.
pub record Placed (ph : Elf64Phdr) (b : ElfBinary) (k : Machine) (b' : ElfBinary) (k' : Machine)
    : Type 0 where
  pub binary : b' ≡ record b { end_addr = mmap_end ph b.base_addr }
  pub maps :
      k'.maps
      ≡ k.maps
        ++ (record {
          start = mmap_start ph b.base_addr;
          size = sub64 (mmap_end ph b.base_addr) (mmap_start ph b.base_addr);
          prot = segment_prot ph;
        }
            ∷ [])
  pub mem :
      k'.mem
      ≡ copy_from b.file
          (memset k.mem
            (mmap_start ph b.base_addr)
            0
            (sub64 (mmap_end ph b.base_addr) (mmap_start ph b.base_addr)))
          (add64 ph.p_vaddr b.base_addr)
          ph.p_offset
          ph.p_filesz

pub load_segment-Placed :
    (sys : System) (ph : Elf64Phdr) (b b' : ElfBinary) (k k' : Machine)
    → load_segment sys ph b k ≡ ok (b', k')
    → Placed ph b k b' k'
unfolding load_segment map_anonymous
load_segment-Placed sys ph b b' k k' h =
    let first = mmap_start ph b.base_addr in
    let last = mmap_end ph b.base_addr in
    let p : ℕ = sys.place k.maps first (sub64 last first) in
    let (here, h1) = check-eq-ok (first == p) _ h in
    let (lo, h2) = check-eq-ok (leb first (add64 ph.p_vaddr b.base_addr)) _ h1 in
    let (hi, h3) = check-eq-ok (leb (add64 (add64 ph.p_vaddr b.base_addr) ph.p_memsz) last) _ h2 in
    let at : first ≡ p = (==_iff first p).0 here in
    subst (λ (q : ElfBinary × Machine). Placed ph b k q.0 q.1) (ok-injective h3)
      (record {
        binary = refl;
        maps =
            ap
              (λ (q : ℕ).
                k.maps
                ++ (record { start = q; size = sub64 last first; prot = segment_prot ph } ∷ []))
              (sym at);
        mem =
            ap
              (λ (q : ℕ).
                copy_from b.file (memset k.mem q 0 (sub64 last first))
                  (add64 ph.p_vaddr b.base_addr) ph.p_offset ph.p_filesz)
              (sym at);
      })

-- Without wrap-around the pages of a segment are those from the page of its first byte to that of its
-- last.
pub record Pages (ph : Elf64Phdr) (base : ℕ) : Type 0 where
  pub start : mmap_start ph base ≡ page_down (ph.p_vaddr + base)
  pub end : mmap_end ph base ≡ (ph.p_vaddr + ph.p_memsz + base + 0xfff) / 4096 * 4096
  pub addr : add64 ph.p_vaddr base ≡ ph.p_vaddr + base
  pub size : mmap_start ph base + sub64 (mmap_end ph base) (mmap_start ph base) ≡ mmap_end ph base
  pub above : ph.p_vaddr + ph.p_memsz + base ≤ mmap_end ph base
  pub below : mmap_start ph base ≤ ph.p_vaddr + base

pub fits-Pages :
    (ph : Elf64Phdr) (base : ℕ) → ph.p_vaddr + ph.p_memsz + base + 0xfff < 2 ^ 64 → Pages ph base
fits-Pages ph base h = record {
  start = omega arith;
  end = omega arith;
  addr = omega arith;
  size = omega arith;
  above = omega arith;
  below = omega arith;
}
