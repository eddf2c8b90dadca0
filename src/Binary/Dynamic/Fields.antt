-- ===== src/Binary/Dynamic/Fields.antt =====
-- What one entry of the dynamic table changes in the binary.
use sloader.Base.{
  ℕ, ◌+◌, ◌≡◌, subst, refl, Bool, true, false, some, [], ◌∷◌, ◌++◌, ◌==◌, ◌||◌, if◌then◌else◌,
  arith, Bool-cases, inl, inr,
}
use sloader.Base.Words.{add64}
use sloader.Result.{ok, check, ◌>>◌}
use sloader.Memory.{Mem, c_str}
use sloader.Elf.{Elf64Dyn}
use sloader.Elf.Tags.{
  dt_needed, dt_pltrelsz, dt_symtab, dt_rela, dt_relasz, dt_relaent, dt_syment, dt_init, dt_fini,
  dt_rpath, dt_rel, dt_pltrel, dt_jmprel, dt_init_array, dt_fini_array, dt_init_arraysz,
  dt_fini_arraysz, dt_runpath, dt_relacount,
}
use sloader.Binary.{ElfBinary}
use sloader.Binary.Dynamic.{dyn_pltrel, dyn_number, dyn_entry, sym_size, rela_size, rel_size}

-- The tags that the second pass knows, each as a case of its own.
data Tag : ℕ → Type 0 where
  tag_needed : Tag dt_needed
  tag_runpath : Tag dt_runpath
  tag_rpath : Tag dt_rpath
  tag_rela : Tag dt_rela
  tag_relasz : Tag dt_relasz
  tag_relaent : Tag dt_relaent
  tag_relacount : Tag dt_relacount
  tag_jmprel : Tag dt_jmprel
  tag_pltrelsz : Tag dt_pltrelsz
  tag_pltrel : Tag dt_pltrel
  tag_symtab : Tag dt_symtab
  tag_syment : Tag dt_syment
  tag_init : Tag dt_init
  tag_fini : Tag dt_fini
  tag_init_array : Tag dt_init_array
  tag_init_arraysz : Tag dt_init_arraysz
  tag_fini_array : Tag dt_fini_array
  tag_fini_arraysz : Tag dt_fini_arraysz
  tag_other :
      (t : ℕ)
      → (t == dt_needed) ≡ false
      → (t == dt_runpath) ≡ false
      → (t == dt_rpath) ≡ false
      → (t == dt_rela) ≡ false
      → (t == dt_relasz) ≡ false
      → (t == dt_relaent) ≡ false
      → (t == dt_relacount) ≡ false
      → (t == dt_jmprel) ≡ false
      → (t == dt_pltrelsz) ≡ false
      → (t == dt_pltrel) ≡ false
      → (t == dt_symtab) ≡ false
      → (t == dt_syment) ≡ false
      → (t == dt_init) ≡ false
      → (t == dt_fini) ≡ false
      → (t == dt_init_array) ≡ false
      → (t == dt_init_arraysz) ≡ false
      → (t == dt_fini_array) ≡ false
      → (t == dt_fini_arraysz) ≡ false
      → Tag t

Tag-case : (t k : ℕ) → Tag k → ((t == k) ≡ false → Tag t) → Tag t
Tag-case t k here later = elim (Bool-cases (t == k)) [
  | inl e ↦ subst Tag (ground (arith, e)) here
  | inr e ↦ later e
]

Tag-cases : (t : ℕ) → Tag t
Tag-cases t = Tag-case t dt_needed tag_needed λ e0. Tag-case t dt_runpath tag_runpath λ e1.
    Tag-case t dt_rpath tag_rpath λ e2. Tag-case t dt_rela tag_rela λ e3.
      Tag-case t dt_relasz tag_relasz λ e4. Tag-case t dt_relaent tag_relaent λ e5.
        Tag-case t dt_relacount tag_relacount λ e6. Tag-case t dt_jmprel tag_jmprel λ e7.
          Tag-case t dt_pltrelsz tag_pltrelsz λ e8. Tag-case t dt_pltrel tag_pltrel λ e9.
            Tag-case t dt_symtab tag_symtab λ e10. Tag-case t dt_syment tag_syment λ e11.
              Tag-case t dt_init tag_init λ e12. Tag-case t dt_fini tag_fini λ e13.
                Tag-case t dt_init_array tag_init_array λ e14.
                  Tag-case t dt_init_arraysz tag_init_arraysz λ e15.
                    Tag-case t dt_fini_array tag_fini_array λ e16.
                      Tag-case t dt_fini_arraysz tag_fini_arraysz λ e17.
                        tag_other t e0 e1 e2 e3 e4 e5 e6 e7 e8 e9 e10 e11 e12 e13 e14 e15 e16 e17

-- What the code checks of an entry.
unfoldable pub valid : ℕ → ℕ → Bool
valid tag v =
    if tag == dt_pltrel
    then v == dt_rela || v == dt_rel
    else (if tag == dt_syment then v == sym_size else true)

-- The members after an entry, one by one.
unfoldable pub entry_members : Mem → ℕ → ℕ → ElfBinary → ElfBinary
entry_members m tag v b = record b {
  neededs = if tag == dt_needed then b.neededs ++ (c_str m (b.strtab + v) ∷ []) else b.neededs;
  runpath = if tag == dt_runpath then some (c_str m (b.strtab + v)) else b.runpath;
  rpath = if tag == dt_rpath then some (c_str m (b.strtab + v)) else b.rpath;
  rela = if tag == dt_rela then add64 b.base_addr v else b.rela;
  relasz = if tag == dt_relasz then v else b.relasz;
  relaent = if tag == dt_relaent then v else b.relaent;
  relacount = if tag == dt_relacount then v else b.relacount;
  jmprel = if tag == dt_jmprel then add64 b.base_addr v else b.jmprel;
  pltrelsz = if tag == dt_pltrelsz then v else b.pltrelsz;
  pltrel = if tag == dt_pltrel then v else b.pltrel;
  pltrelent =
      if tag == dt_pltrel then (if v == dt_rela then rela_size else rel_size) else b.pltrelent;
  symtab = if tag == dt_symtab then add64 b.base_addr v else b.symtab;
  syment = if tag == dt_syment then v else b.syment;
  init = if tag == dt_init then v else b.init;
  fini = if tag == dt_fini then v else b.fini;
  init_array = if tag == dt_init_array then v else b.init_array;
  init_arraysz = if tag == dt_init_arraysz then v else b.init_arraysz;
  fini_array = if tag == dt_fini_array then v else b.fini_array;
  fini_arraysz = if tag == dt_fini_arraysz then v else b.fini_arraysz;
}

members_of :
    (m : Mem) (tag v : ℕ) (b : ElfBinary)
    → Tag tag
    → dyn_entry m (record { d_tag = tag; d_val = v }) b
      ≡ (check (valid tag v) >> ok (entry_members m tag v b))
unfolding dyn_entry dyn_number dyn_pltrel valid entry_members
members_of m _ v b tag_needed = refl
members_of m _ v b tag_runpath = refl
members_of m _ v b tag_rpath = refl
members_of m _ v b tag_rela = refl
members_of m _ v b tag_relasz = refl
members_of m _ v b tag_relaent = refl
members_of m _ v b tag_relacount = refl
members_of m _ v b tag_jmprel = refl
members_of m _ v b tag_pltrelsz = refl
members_of m _ v b tag_pltrel = refl
members_of m _ v b tag_symtab = refl
members_of m _ v b tag_syment = refl
members_of m _ v b tag_init = refl
members_of m _ v b tag_fini = refl
members_of m _ v b tag_init_array = refl
members_of m _ v b tag_init_arraysz = refl
members_of m _ v b tag_fini_array = refl
members_of m _ v b tag_fini_arraysz = refl
members_of m _ v b (tag_other t e0 e1 e2 e3 e4 e5 e6 e7 e8 e9 e10 e11 e12 e13 e14 e15 e16 e17) =
    rw (e0, e1, e2, e3, e4, e5, e6, e7, e8, e9, e10, e11, e12, e13, e14, e15, e16, e17) refl

-- One entry of the second pass.
pub dyn_entry-members :
    (m : Mem) (dyn : Elf64Dyn) (b : ElfBinary)
    → dyn_entry m dyn b
      ≡ (check (valid dyn.d_tag dyn.d_val) >> ok (entry_members m dyn.d_tag dyn.d_val b))
dyn_entry-members m dyn b = members_of m dyn.d_tag dyn.d_val b (Tag-cases dyn.d_tag)
