-- ===== src/Binary/Segments/Image.antt =====
-- After the segments are loaded, memory holds the file's bytes and zeros behind them.
use sloader.Base.{
  ℕ, ◌+◌, ◌-◌, ◌*◌, ◌/◌, ◌≤◌, ◌<◌, ◌^◌, ◌≡◌, ◌∙◌, sym, ap, subst, List, [], ◌∷◌, ◌==◌, arith,
  Bool-cases, inl, inr,
}
use sloader.Base.Words.{sub64, page_down}
use sloader.Result.{ok, >>=-eq-ok, ok-injective}
use sloader.System.{System, Machine}
use sloader.Memory.{Mem, copy_from, memset}
use sloader.Memory.Laws.{copy_from-Outside, memset-Outside}
use sloader.Elf.{Elf64Phdr}
use sloader.Elf.Tags.{pt_load}
use sloader.Binary.{ElfBinary}
use sloader.Binary.Load.{load_segment, load_segments, load_base, load, mmap_start, mmap_end}
use sloader.Binary.Segments.{loads, Ascending}
use sloader.Binary.Segments.Pages.{Placed, load_segment-Placed, Pages, fits-Pages}
use sloader.Binary.Segments.Place.{FitsAt, LoadSteps, load-LoadSteps, started, load_base-dyn}

-- The bytes of a loaded segment: those of the file, then zeros.
pub record Holds (m file : Mem) (base : ℕ) (ph : Elf64Phdr) : Type 0 where
  pub from_file : (x : ℕ) → x < ph.p_filesz → m (ph.p_vaddr + base + x) ≡ file (ph.p_offset + x)
  pub zero : (x : ℕ) → ph.p_filesz ≤ x → x < ph.p_memsz → m (ph.p_vaddr + base + x) ≡ 0

abbrev pub AllHold : Mem → Mem → ℕ → List Elf64Phdr → Type 0
AllHold m file base [] = Unit
AllHold m file base (ph ∷ rest) = Holds m file base ph × AllHold m file base rest

copy_from_inside :
    (from m : Mem) (dest src n x : ℕ)
    → dest ≤ x
    → x < dest + n
    → copy_from from m dest src n x ≡ from (src + (x - dest))
unfolding copy_from
copy_from_inside from m dest src n x lo hi = ground arith

memset_inside : (m : Mem) (dest v n x : ℕ) → dest ≤ x → x < dest + n → memset m dest v n x ≡ v
unfolding memset
memset_inside m dest v n x lo hi = ground arith

module _ (ph : Elf64Phdr) (b b1 : ElfBinary) (k k1 : Machine) (g : Pages ph b.base_addr)
    (p : Placed ph b k b1 k1) (small : ph.p_filesz ≤ ph.p_memsz) where
  at_mem :
      (x : ℕ)
      → k1.mem x
        ≡ copy_from b.file
            (memset k.mem
              (mmap_start ph b.base_addr)
              0
              (sub64 (mmap_end ph b.base_addr) (mmap_start ph b.base_addr)))
            (ph.p_vaddr + b.base_addr)
            ph.p_offset
            ph.p_filesz
            x
  at_mem x =
      ap (λ (m : Mem). m x) p.mem
      ∙ ap
          (λ (a : ℕ).
            copy_from b.file
              (memset k.mem (mmap_start ph b.base_addr) 0
                (sub64 (mmap_end ph b.base_addr) (mmap_start ph b.base_addr)))
              a ph.p_offset ph.p_filesz x)
          g.addr

  segment_Holds : Holds k1.mem b.file b.base_addr ph
  segment_Holds =
      let start = mmap_start ph b.base_addr in
      let size = sub64 (mmap_end ph b.base_addr) start in
      record {
        from_file = λ x lt.
            at_mem (ph.p_vaddr + b.base_addr + x)
            ∙ (copy_from_inside b.file (memset k.mem start 0 size) (ph.p_vaddr + b.base_addr)
                  ph.p_offset ph.p_filesz (ph.p_vaddr + b.base_addr + x) (omega arith) (omega arith)
                ∙ ap (λ (y : ℕ). b.file (ph.p_offset + y)) (omega arith));
        zero = λ x ge lt.
            at_mem (ph.p_vaddr + b.base_addr + x)
            ∙ (copy_from-Outside b.file (memset k.mem start 0 size) (ph.p_vaddr + b.base_addr)
                  ph.p_offset ph.p_filesz (ph.p_vaddr + b.base_addr + x) (omega arith)
                ∙ memset_inside k.mem start 0 size (ph.p_vaddr + b.base_addr + x)
                    (omega (arith, g.below)) (omega (arith, g.size, g.above)));
      }

  segment_below : (x : ℕ) → x < mmap_start ph b.base_addr → k1.mem x ≡ k.mem x
  segment_below x lt =
      let start = mmap_start ph b.base_addr in
      let size = sub64 (mmap_end ph b.base_addr) start in
      at_mem x
      ∙ (copy_from-Outside b.file (memset k.mem start 0 size) (ph.p_vaddr + b.base_addr) ph.p_offset
            ph.p_filesz x (inl (omega (arith, g.below)))
          ∙ memset-Outside k.mem start 0 size x (inl lt))

-- Segments from `lo` on leave the bytes below alone, and each holds its part of the file.
record Image (lo : ℕ) (b : ElfBinary) (phs : List Elf64Phdr) (m m' : Mem) : Type 0 where
  below : (x : ℕ) → x < lo → m' x ≡ m x
  hold : AllHold m' b.file b.base_addr phs

Holds-ext :
    (m g file : Mem) (base hi : ℕ) (ph : Elf64Phdr)
    → ph.p_filesz ≤ ph.p_memsz
    → ph.p_vaddr + ph.p_memsz + base ≤ hi
    → ((x : ℕ) → x < hi → g x ≡ m x)
    → Holds m file base ph
    → Holds g file base ph
Holds-ext m g file base hi ph small end same h = record {
  from_file = λ x lt. same (ph.p_vaddr + base + x) (omega arith) ∙ h.from_file x lt;
  zero = λ x ge lt. same (ph.p_vaddr + base + x) (omega arith) ∙ h.zero x ge lt;
}

Image-cons :
    (ph : Elf64Phdr) (rest : List Elf64Phdr) (lo : ℕ) (b b1 : ElfBinary) (k k1 : Machine) (m' : Mem)
    → lo ≤ page_down (ph.p_vaddr + b.base_addr)
    → ph.p_vaddr + ph.p_memsz + b.base_addr + 0xfff < 2 ^ 64
    → ph.p_filesz ≤ ph.p_memsz
    → Placed ph b k b1 k1
    → (Ascending b1.base_addr (mmap_end ph b.base_addr) (loads rest)
        → Image (mmap_end ph b.base_addr) b1 (loads rest) k1.mem m')
    → Ascending b.base_addr
        ((ph.p_vaddr + ph.p_memsz + b.base_addr + 0xfff) / 4096 * 4096)
        (loads rest)
    → Image lo b (ph ∷ loads rest) k.mem m'
Image-cons ph rest lo b b1 k k1 m' above room small p step more =
    let g : Pages ph b.base_addr = fits-Pages ph b.base_addr room in
    let base1 : b1.base_addr ≡ b.base_addr = ap (λ (c : ElfBinary). c.base_addr) p.binary in
    let file1 : b1.file ≡ b.file = ap (λ (c : ElfBinary). c.file) p.binary in
    let tail : Image (mmap_end ph b.base_addr) b1 (loads rest) k1.mem m' =
      step (rw (base1, g.end) more) in
    record {
      below = λ x lt.
          tail.below x (omega (arith, g.start, g.end))
          ∙ segment_below ph b b1 k k1 g p small x (omega (arith, g.start));
      hold = (
        Holds-ext k1.mem m' b.file b.base_addr (mmap_end ph b.base_addr) ph small
            (omega (arith, g.above)) tail.below (segment_Holds ph b b1 k k1 g p small),
        rw (base1, file1) at tail.hold,
      );
    }

load_segments-Image :
    (sys : System) (phs : List Elf64Phdr) (lo : ℕ) (b b' : ElfBinary) (k k' : Machine)
    → load_segments sys phs b k ≡ ok (b', k')
    → Ascending b.base_addr lo (loads phs)
    → Image lo b (loads phs) k.mem k'.mem
unfolding load_segments loads
load_segments-Image sys [] lo b b' k k' h asc = record {
  below = λ x lt. ap (λ (q : ElfBinary × Machine). q.1.mem x) (sym (ok-injective h));
  hold = tt;
}
load_segments-Image sys (ph ∷ rest) lo b b' k k' h asc = elim (Bool-cases (ph.p_type == pt_load)) [
  | inr no_load ↦
      rw (no_load, loads)
        (load_segments-Image sys rest lo b b' k k' (rw (no_load, load_segments) at h)
          (rw (no_load, loads) at asc))
  | inl is_load ↦
      let (above, room, small, more) =
        let a : Ascending b.base_addr lo (ph ∷ loads rest) = rw (is_load, loads) at asc in a in
      let ((b1, k1), run, after) =
        >>=-eq-ok (load_segment sys ph b k) _ (rw (is_load, load_segments) at h) in
      rw (is_load, loads)
        (Image-cons ph rest lo b b1 k k1 k'.mem above room small
          (load_segment-Placed sys ph b b1 k k1 run)
          (λ asc'. load_segments-Image sys rest (mmap_end ph b.base_addr) b1 b' k1 k' after asc')
          more)
]

-- After Load has returned for a position-independent binary whose segments ascend, each PT_LOAD
-- segment holds its bytes of the file and zeros from there to its memory size.
pub load-AllHold :
    (sys : System) (b b' : ElfBinary) (base next : ℕ) (k k' : Machine)
    → load sys b base k ≡ ok (b', next, k')
    → FitsAt base b
    → AllHold k'.mem b.file base (loads b.file_phdrs)
load-AllHold sys b b' base next k k' h fits =
    let at : load_base b base ≡ base = load_base-dyn b base fits.is_dyn in
    let s : LoadSteps sys b base k b' next k' = load-LoadSteps sys b b' base next k k' h in
    let image : Image base (started b base) (loads b.file_phdrs) k.mem k'.mem =
      load_segments-Image sys b.file_phdrs base (started b base) s.segments k k'
        (subst (λ (n : ℕ). load_segments sys b.file_phdrs (started b n) k ≡ ok (s.segments, k')) at
          s.run)
        fits.ascending in
    image.hold
