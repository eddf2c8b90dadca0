-- ===== src/ExecLoader/Memories.antt =====
-- What ExecLoader::Load maps, and what it remembers for Unload.
use sloader.Base.{
  ℕ, ◌%◌, ◌^◌, ◌≡◌, ◌∙◌, sym, ap, true, false, Bool-cases, inl, inr, ◌==◌, ==_iff, List, [], ◌∷◌,
  ◌++◌, append_assoc, append-nil, if◌then◌else◌,
}
use sloader.Base.Words.{add64, sub64, page_down, page_up}
use sloader.Result.{Result, ok, check, ◌>>◌}
use sloader.Result.Ensures.{Ensures, returns, fails, bind, checked, map-Ensures, outcome}
use sloader.System.{System, Region, Machine, map_anonymous}
use sloader.Elf.{Elf64Phdr}
use sloader.Elf.Tags.{pt_load}
use sloader.ExecLoader.{ExecLoader, load_segment, load_segments, load}

-- The mapping of a segment, readable, writable and executable.
abbrev pub segment_region : Elf64Phdr → Region
segment_region ph = record {
  start = page_down ph.p_vaddr;
  size = sub64 (page_up (add64 ph.p_vaddr ph.p_memsz)) (page_down ph.p_vaddr);
  prot = 7;
}

-- What is kept of it.
abbrev pub segment_memory : Elf64Phdr → ℕ × ℕ
segment_memory ph = (page_down ph.p_vaddr, ph.p_memsz % 2 ^ 32)

-- The images of the PT_LOAD headers.
unfoldable pub loaded {ℓ} : {A : Type ℓ} → (Elf64Phdr → A) → List Elf64Phdr → List A
loaded f [] = []
loaded f (ph ∷ rest) = if ph.p_type == pt_load then f ph ∷ loaded f rest else loaded f rest

-- The mappings and memories that loading the headers adds.
pub record Maps (phdrs : List Elf64Phdr) (l : ExecLoader) (k : Machine) (l' : ExecLoader)
    (k' : Machine) : Type 0 where
  pub maps : k'.maps ≡ k.maps ++ loaded segment_region phdrs
  pub memories : l'.memories ≡ l.memories ++ loaded segment_memory phdrs

checked_eq {ℓ κ} :
    {B : Type ℓ} {Q : B → Type κ} (a b : ℕ) {m : Result B}
    → (a ≡ b → Ensures Q m)
    → Ensures Q (check (a == b) >> m)
checked_eq a b h = elim (Bool-cases (a == b)) [
  | inl e ↦ rw e (h ((==_iff a b).0 e))
  | inr e ↦ rw e fails
]

Maps-skip :
    {ph : Elf64Phdr} {rest : List Elf64Phdr} {l l' : ExecLoader} {k k' : Machine}
    → (ph.p_type == pt_load) ≡ false
    → Maps rest l k l' k'
    → Maps (ph ∷ rest) l k l' k'
unfolding loaded
Maps-skip e h = record { maps = rw e h.maps; memories = rw e h.memories }

Maps-load :
    {ph : Elf64Phdr} {rest : List Elf64Phdr} {l l1 l' : ExecLoader} {k k1 k' : Machine}
    → (ph.p_type == pt_load) ≡ true
    → k1.maps ≡ k.maps ++ (segment_region ph ∷ [])
    → l1.memories ≡ l.memories ++ (segment_memory ph ∷ [])
    → Maps rest l1 k1 l' k'
    → Maps (ph ∷ rest) l k l' k'
unfolding loaded
Maps-load {ph} {rest} {l} {l1} {l'} {k} e maps memories h = record {
  maps = rw e (
      h.maps
      ∙ (ap (λ (r : List Region). r ++ loaded segment_region rest) maps
          ∙ append_assoc k.maps (segment_region ph ∷ []) (loaded segment_region rest)));
  memories = rw e (
      h.memories
      ∙ (ap (λ (r : List (ℕ × ℕ)). r ++ loaded segment_memory rest) memories
          ∙ append_assoc l.memories (segment_memory ph ∷ []) (loaded segment_memory rest)));
}

module _ (sys : System) where
  load_segment-Ensures :
      (ph : Elf64Phdr) (l : ExecLoader) (k : Machine)
      → Ensures
          (λ (p : ExecLoader × Machine).
            (p.1.maps ≡ k.maps ++ (segment_region ph ∷ []))
            × (p.0.memories ≡ l.memories ++ (segment_memory ph ∷ [])))
          (load_segment sys ph l k)
  unfolding load_segment map_anonymous
  load_segment-Ensures ph l k =
      let size : ℕ = (segment_region ph).size in
      let p : ℕ = sys.place k.maps (page_down ph.p_vaddr) size in
      checked_eq (page_down ph.p_vaddr) p λ e. checked _ (
        checked _ (
          returns (
            ap (λ (q : ℕ). k.maps ++ (record { start = q; size = size; prot = 7 } ∷ [])) (sym e),
            ap (λ (q : ℕ). l.memories ++ ((q, ph.p_memsz % 2 ^ 32) ∷ [])) (sym e),
          )))

  load_segments-Maps :
      (phdrs : List Elf64Phdr) (l : ExecLoader) (k : Machine)
      → Ensures (λ (p : ExecLoader × Machine). Maps phdrs l k p.0 p.1) (load_segments sys phdrs l k)
  unfolding load_segments loaded
  load_segments-Maps [] l k =
      returns (record { maps = sym (append-nil k.maps); memories = sym (append-nil l.memories) })
  load_segments-Maps (ph ∷ rest) l k = elim (Bool-cases (ph.p_type == pt_load)) [
    | inl e ↦
        rw (e, load_segments)
          (bind (load_segment-Ensures ph l k)
            λ p h. map-Ensures (λ q. Maps-load e h.0 h.1) (load_segments-Maps rest p.0 p.1))
    | inr e ↦ rw (e, load_segments) (map-Ensures (λ q. Maps-skip e) (load_segments-Maps rest l k))
  ]

-- If ExecLoader::Load returns, it has mapped the pages of every PT_LOAD segment at their own address and
-- nothing else, and it remembers for each the first page and the size in memory, reduced to 32 bits.
pub load-Maps :
    (sys : System) (l l' : ExecLoader) (k k' : Machine)
    → load sys l k ≡ ok (l', k')
    → Maps l.phdrs l k l' k'
unfolding load
load-Maps sys l l' k k' h =
    outcome (λ (p : ExecLoader × Machine). Maps l.phdrs l k p.0 p.1) _ _
      (load_segments-Maps sys l.phdrs l k) h
