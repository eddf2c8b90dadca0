-- ===== src/Binary/Dynamic/Entries.antt =====
-- What the second pass of ParseDynamic takes from a whole dynamic table.
use sloader.Base.{
  ℕ, ◌+◌, ◌≡◌, ◌∙◌, sym, ap, subst, refl, append-nil, append_assoc, map, Str, some, List, [], ◌∷◌,
  ◌++◌, ◌==◌, if◌then◌else◌, Bool-cases, inl, inr,
}
use sloader.Base.Words.{add64}
use sloader.Result.{ok, ok-injective, >>=-eq-ok, check-eq-ok}
use sloader.Memory.{Mem, c_str}
use sloader.Elf.{Elf64Dyn}
use sloader.Elf.Tags.{
  dt_needed, dt_runpath, dt_rpath, dt_rela, dt_relasz, dt_relaent, dt_relacount, dt_jmprel,
  dt_pltrelsz, dt_pltrel, dt_symtab, dt_syment, dt_init, dt_fini, dt_init_array, dt_init_arraysz,
  dt_fini_array, dt_fini_arraysz,
}
use sloader.Binary.{ElfBinary}
use sloader.Binary.Dynamic.{dyn_entry, dyn_entries, rela_size, rel_size}
use sloader.Binary.Dynamic.Fields.{valid, entry_members, dyn_entry-members}

-- The value of the last entry of a tag, as `read` takes it.
unfoldable pub last_of {ℓ} : {A : Type ℓ} → ℕ → (ℕ → A) → A → List Elf64Dyn → A
last_of tag read default [] = default
last_of tag read default (dyn ∷ rest) =
    last_of tag read (if dyn.d_tag == tag then read dyn.d_val else default) rest

-- The values of all entries of a tag, in order.
unfoldable pub values_of : ℕ → List Elf64Dyn → List ℕ
values_of tag [] = []
values_of tag (dyn ∷ rest) =
    let later = values_of tag rest in if dyn.d_tag == tag then dyn.d_val ∷ later else later

unfoldable all_members : Mem → List Elf64Dyn → ElfBinary → ElfBinary
all_members m [] b = b
all_members m (dyn ∷ rest) b = all_members m rest (entry_members m dyn.d_tag dyn.d_val b)

dyn_entries-members :
    (m : Mem) (dyns : List Elf64Dyn) (b b' : ElfBinary)
    → dyn_entries m dyns b ≡ ok b'
    → b' ≡ all_members m dyns b
unfolding dyn_entries all_members
dyn_entries-members m [] b b' h = sym (ok-injective h)
dyn_entries-members m (dyn ∷ rest) b b' h =
    let (b1, first, later) = >>=-eq-ok (dyn_entry m dyn b) _ h in
    let (valid_entry, e) =
      check-eq-ok (valid dyn.d_tag dyn.d_val) _ (sym (dyn_entry-members m dyn b) ∙ first) in
    dyn_entries-members m rest b1 b' later ∙ ap (all_members m rest) (sym (ok-injective e))

-- The members that hold a number or an address: each is that of the last entry of its tag.
pub record Numbers (dyns : List Elf64Dyn) (b b' : ElfBinary) : Type 0 where
  pub rela : b'.rela ≡ last_of dt_rela (add64 b.base_addr) b.rela dyns
  pub relasz : b'.relasz ≡ last_of dt_relasz (λ v. v) b.relasz dyns
  pub relaent : b'.relaent ≡ last_of dt_relaent (λ v. v) b.relaent dyns
  pub relacount : b'.relacount ≡ last_of dt_relacount (λ v. v) b.relacount dyns
  pub jmprel : b'.jmprel ≡ last_of dt_jmprel (add64 b.base_addr) b.jmprel dyns
  pub pltrelsz : b'.pltrelsz ≡ last_of dt_pltrelsz (λ v. v) b.pltrelsz dyns
  pub pltrel : b'.pltrel ≡ last_of dt_pltrel (λ v. v) b.pltrel dyns
  pub pltrelent :
      b'.pltrelent
      ≡ last_of dt_pltrel (λ v. if v == dt_rela then rela_size else rel_size) b.pltrelent dyns
  pub symtab : b'.symtab ≡ last_of dt_symtab (add64 b.base_addr) b.symtab dyns
  pub syment : b'.syment ≡ last_of dt_syment (λ v. v) b.syment dyns
  pub init : b'.init ≡ last_of dt_init (λ v. v) b.init dyns
  pub fini : b'.fini ≡ last_of dt_fini (λ v. v) b.fini dyns
  pub init_array : b'.init_array ≡ last_of dt_init_array (λ v. v) b.init_array dyns
  pub init_arraysz : b'.init_arraysz ≡ last_of dt_init_arraysz (λ v. v) b.init_arraysz dyns
  pub fini_array : b'.fini_array ≡ last_of dt_fini_array (λ v. v) b.fini_array dyns
  pub fini_arraysz : b'.fini_arraysz ≡ last_of dt_fini_arraysz (λ v. v) b.fini_arraysz dyns

-- The members that the entries of a table leave, when the string table is at `strtab`.
pub record Entries (m : Mem) (dyns : List Elf64Dyn) (b b' : ElfBinary) : Type 0 where
  pub strtab : b'.strtab ≡ b.strtab
  pub strsz : b'.strsz ≡ b.strsz
  pub base_addr : b'.base_addr ≡ b.base_addr
  pub relas : b'.relas ≡ b.relas
  pub pltrelas : b'.pltrelas ≡ b.pltrelas
  pub symtabs : b'.symtabs ≡ b.symtabs
  pub neededs :
      b'.neededs ≡ b.neededs ++ map (λ v. c_str m (b.strtab + v)) (values_of dt_needed dyns)
  pub runpath : b'.runpath ≡ last_of dt_runpath (λ v. some (c_str m (b.strtab + v))) b.runpath dyns
  pub rpath : b'.rpath ≡ last_of dt_rpath (λ v. some (c_str m (b.strtab + v))) b.rpath dyns
  pub numbers : Numbers dyns b b'

needed_entry :
    (m : Mem) (dyn : Elf64Dyn) (dyns : List Elf64Dyn) (strtab : ℕ) (before : List Str)
    → (if dyn.d_tag == dt_needed then before ++ (c_str m (strtab + dyn.d_val) ∷ []) else before)
        ++ map (λ v. c_str m (strtab + v)) (values_of dt_needed dyns)
      ≡ before ++ map (λ v. c_str m (strtab + v)) (values_of dt_needed (dyn ∷ dyns))
unfolding values_of
needed_entry m dyn dyns strtab before = elim (Bool-cases (dyn.d_tag == dt_needed)) [
  | inl e ↦ rw (e, values_of) (append_assoc before (c_str m (strtab + dyn.d_val) ∷ []) _)
  | inr e ↦ rw (e, values_of) refl
]

all_members-Entries :
    (m : Mem) (dyns : List Elf64Dyn) (b : ElfBinary) → Entries m dyns b (all_members m dyns b)
unfolding all_members entry_members last_of values_of
all_members-Entries m [] b = record {
  strtab = refl;
  strsz = refl;
  base_addr = refl;
  relas = refl;
  pltrelas = refl;
  symtabs = refl;
  neededs = sym (append-nil b.neededs);
  runpath = refl;
  rpath = refl;
  numbers = record {
    rela = refl;
    relasz = refl;
    relaent = refl;
    relacount = refl;
    jmprel = refl;
    pltrelsz = refl;
    pltrel = refl;
    pltrelent = refl;
    symtab = refl;
    syment = refl;
    init = refl;
    fini = refl;
    init_array = refl;
    init_arraysz = refl;
    fini_array = refl;
    fini_arraysz = refl;
  };
}
all_members-Entries m (dyn ∷ dyns) b =
    let r = all_members-Entries m dyns (entry_members m dyn.d_tag dyn.d_val b) in
    let n = r.numbers in
    record {
      strtab = r.strtab;
      strsz = r.strsz;
      base_addr = r.base_addr;
      relas = r.relas;
      pltrelas = r.pltrelas;
      symtabs = r.symtabs;
      neededs = r.neededs ∙ needed_entry m dyn dyns b.strtab b.neededs;
      runpath = r.runpath;
      rpath = r.rpath;
      numbers = record {
        rela = n.rela;
        relasz = n.relasz;
        relaent = n.relaent;
        relacount = n.relacount;
        jmprel = n.jmprel;
        pltrelsz = n.pltrelsz;
        pltrel = n.pltrel;
        pltrelent = n.pltrelent;
        symtab = n.symtab;
        syment = n.syment;
        init = n.init;
        fini = n.fini;
        init_array = n.init_array;
        init_arraysz = n.init_arraysz;
        fini_array = n.fini_array;
        fini_arraysz = n.fini_arraysz;
      };
    }

-- The second pass of ParseDynamic.
pub dyn_entries-Entries :
    (m : Mem) (dyns : List Elf64Dyn) (b b' : ElfBinary)
    → dyn_entries m dyns b ≡ ok b'
    → Entries m dyns b b'
dyn_entries-Entries m dyns b b' h =
    subst (Entries m dyns b) (sym (dyn_entries-members m dyns b b' h))
      (all_members-Entries m dyns b)
