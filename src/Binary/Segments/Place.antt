-- ===== src/Binary/Segments/Place.antt =====
-- Load maps the segments in ascending order, inside the range that it reports.
use sloader.Base.{
  ℕ, ◌+◌, ◌%◌, ◌≤◌, ◌<◌, ◌^◌, ◌≡◌, ◌∙◌, sym, ap, subst, refl, List, [], ◌∷◌, ◌++◌, append_assoc,
  append-nil, ◌==◌, arith, Bool-cases, inl, inr,
}
use sloader.Base.Words.{sub64, page_down}
use sloader.Result.{ok, >>=-eq-ok, ok-injective}
use sloader.System.{System, Machine, Region}
use sloader.Elf.{Elf64Phdr, ehdr_type_dyn}
use sloader.Elf.Tags.{pt_load}
use sloader.Binary.{ElfBinary}
use sloader.Result.Ensures.{outcome}
use sloader.Binary.Dynamic.{parse_dynamic}
use sloader.Binary.Dynamic.Layout.{SameLayout, parse_dynamic-SameLayout}
use sloader.Binary.Load.{
  segment_prot, load_segment, load_segments, next_base, load_base, load, mmap_start, mmap_end,
}
use sloader.Binary.Segments.{loads, Ascending, InOrder}
use sloader.Binary.Segments.Pages.{Placed, load_segment-Placed, Pages, fits-Pages}

-- The outcome of loading segments from `lo` on.
record Loaded (lo : ℕ) (b : ElfBinary) (k : Machine) (b' : ElfBinary) (k' : Machine) : Type 0 where
  new : List Region
  maps : k'.maps ≡ k.maps ++ new
  order : InOrder lo b'.end_addr new
  base : b'.base_addr ≡ b.base_addr

Loaded-cons :
    (lo : ℕ) (ph : Elf64Phdr) (b b1 b' : ElfBinary) (k k1 k' : Machine)
    → lo ≤ page_down (ph.p_vaddr + b.base_addr)
    → Pages ph b.base_addr
    → Placed ph b k b1 k1
    → Loaded (mmap_end ph b.base_addr) b1 k1 b' k'
    → Loaded lo b k b' k'
Loaded-cons lo ph b b1 b' k k1 k' above g p rest =
    let first : ℕ = mmap_start ph b.base_addr in
    let r : Region = record {
      start = first;
      size = sub64 (mmap_end ph b.base_addr) first;
      prot = segment_prot ph;
    } in
    record {
      new = r ∷ rest.new;
      maps =
          rest.maps
          ∙ (ap (λ (ms : List Region). ms ++ rest.new) p.maps
              ∙ append_assoc k.maps (r ∷ []) rest.new);
      order = (
        subst (λ (n : ℕ). lo ≤ n) (sym g.start) above,
        subst (λ (n : ℕ). InOrder n b'.end_addr rest.new) (sym g.size) rest.order,
      );
      base = rest.base ∙ ap (λ (c : ElfBinary). c.base_addr) p.binary;
    }

load_segments-Loaded :
    (sys : System) (phs : List Elf64Phdr) (lo : ℕ) (b b' : ElfBinary) (k k' : Machine)
    → load_segments sys phs b k ≡ ok (b', k')
    → b.end_addr ≡ lo
    → Ascending b.base_addr lo (loads phs)
    → Loaded lo b k b' k'
unfolding load_segments loads
load_segments-Loaded sys [] lo b b' k k' h e asc =
    subst (λ (q : ElfBinary × Machine). Loaded lo b k q.0 q.1) (ok-injective h)
      (record { new = []; maps = sym (append-nil k.maps); order = omega arith; base = refl })
load_segments-Loaded sys (ph ∷ rest) lo b b' k k' h e asc =
    elim (Bool-cases (ph.p_type == pt_load)) [
      | inr no_load ↦
          load_segments-Loaded sys rest lo b b' k k' (rw (no_load, load_segments) at h) e
            (rw (no_load, loads) at asc)
      | inl is_load ↦
          let (above, room, small, more) =
            let a : Ascending b.base_addr lo (ph ∷ loads rest) = rw (is_load, loads) at asc in a in
          let ((b1, k1), run, after) =
            >>=-eq-ok (load_segment sys ph b k) _ (rw (is_load, load_segments) at h) in
          let g : Pages ph b.base_addr = fits-Pages ph b.base_addr room in
          let p : Placed ph b k b1 k1 = load_segment-Placed sys ph b b1 k k1 run in
          let end1 : b1.end_addr ≡ mmap_end ph b.base_addr =
            ap (λ (c : ElfBinary). c.end_addr) p.binary in
          let base1 : b1.base_addr ≡ b.base_addr = ap (λ (c : ElfBinary). c.base_addr) p.binary in
          Loaded-cons lo ph b b1 b' k k1 k' above g p (
            load_segments-Loaded sys rest (mmap_end ph b.base_addr) b1 b' k1 k' after end1
              (rw (base1, g.end) more))
    ]

InOrder-up : (lo hi up : ℕ) (rs : List Region) → InOrder lo hi rs → hi ≤ up → InOrder lo up rs
InOrder-up lo hi up [] h u = omega arith
InOrder-up lo hi up (r ∷ rs) h u = (h.0, InOrder-up (r.start + r.size) hi up rs h.1 u)

pub InOrder-append :
    (lo mid hi : ℕ) (rs ss : List Region)
    → InOrder lo mid rs
    → InOrder mid hi ss
    → InOrder lo hi (rs ++ ss)
InOrder-append lo mid hi [] [] h k = omega arith
InOrder-append lo mid hi [] (s ∷ ss) h k = (omega arith, k.1)
InOrder-append lo mid hi (r ∷ rs) ss h k =
    (h.0, InOrder-append (r.start + r.size) mid hi rs ss h.1 k)

-- The segments of a position-independent binary, moved to `base`, do not wrap around, ascend, and
-- leave room for the rounding of their end.
pub record FitsAt (base : ℕ) (b : ElfBinary) : Type 0 where
  pub is_dyn : b.ehdr.e_type ≡ ehdr_type_dyn
  pub ascending : Ascending base base (loads b.file_phdrs)

next_base_bounds :
    (last : ℕ)
    → last + 0x3fffff < 2 ^ 64
    → (last ≤ next_base last) × (next_base last % 0x400000 ≡ 0)
next_base_bounds last h = (omega arith, omega arith)

abbrev pub started : ElfBinary → ℕ → ElfBinary
started b base = record b { base_addr = base; end_addr = base }

-- The parts of a Load that returns.
pub record LoadSteps (sys : System) (b : ElfBinary) (base : ℕ) (k : Machine) (b' : ElfBinary)
    (next : ℕ) (k' : Machine) : Type 0 where
  pub segments : ElfBinary
  pub run : load_segments sys b.file_phdrs (started b (load_base b base)) k ≡ ok (segments, k')
  pub keeps : SameLayout segments b'
  pub rounded : next ≡ next_base b'.end_addr

pub load-LoadSteps :
    (sys : System) (b b' : ElfBinary) (base next : ℕ) (k k' : Machine)
    → load sys b base k ≡ ok (b', next, k')
    → LoadSteps sys b base k b' next k'
unfolding load
load-LoadSteps sys b b' base next k k' h =
    let ((b1, k1), run, h1) =
      >>=-eq-ok (load_segments sys b.file_phdrs (started b (load_base b base)) k) _ h in
    let (b2, parsed, h2) = >>=-eq-ok (parse_dynamic k1.mem b1) _ h1 in
    subst (λ (q : ElfBinary × ℕ × Machine). LoadSteps sys b base k q.0 q.1 q.2) (ok-injective h2)
      (record {
        segments = b1;
        run = run;
        keeps = outcome (SameLayout b1) _ b2 (parse_dynamic-SameLayout k1.mem b1) parsed;
        rounded = refl;
      })

pub load_base-dyn :
    (b : ElfBinary) (base : ℕ) → b.ehdr.e_type ≡ ehdr_type_dyn → load_base b base ≡ base
unfolding load_base
load_base-dyn b base e = ground arith

-- Loading a position-independent binary whose segments ascend maps its pages, in that order and
-- without overlap, between the base address given and the one returned, which is a multiple of 4 MiB.
pub load-InOrder :
    (sys : System) (b b' : ElfBinary) (base next : ℕ) (k k' : Machine)
    → load sys b base k ≡ ok (b', next, k')
    → FitsAt base b
    → b'.end_addr + 0x3fffff < 2 ^ 64
    → (new : List Region) × (k'.maps ≡ k.maps ++ new)
      × InOrder base next new
      × (b'.base_addr ≡ base)
      × (next % 0x400000 ≡ 0)
load-InOrder sys b b' base next k k' h fits room =
    let at : load_base b base ≡ base = load_base-dyn b base fits.is_dyn in
    let s : LoadSteps sys b base k b' next k' = load-LoadSteps sys b b' base next k k' h in
    let done : Loaded base (started b base) k s.segments k' =
      load_segments-Loaded sys b.file_phdrs base (started b base) s.segments k k'
        (subst (λ (n : ℕ). load_segments sys b.file_phdrs (started b n) k ≡ ok (s.segments, k')) at
          s.run)
        refl fits.ascending in
    let end : b'.end_addr ≡ s.segments.end_addr = s.keeps.end_addr in
    let (up, round) = next_base_bounds b'.end_addr room in
    (
      done.new,
      done.maps,
      subst (λ (n : ℕ). InOrder base n done.new) (sym s.rounded)
          (InOrder-up base s.segments.end_addr (next_base b'.end_addr) done.new done.order
            (subst (λ (n : ℕ). n ≤ next_base b'.end_addr) end up)),
      s.keeps.base_addr ∙ done.base,
      subst (λ (n : ℕ). n % 0x400000 ≡ 0) (sym s.rounded) round,
    )
