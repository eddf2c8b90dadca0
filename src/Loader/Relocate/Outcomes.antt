-- ===== src/Loader/Relocate/Outcomes.antt =====
-- One relocation ends in a value, or in a failure for one of the reasons.
use sloader.Base.{
  ℕ, ◌≡◌, refl, true, inl, inr, Option, none, some, List, Str, Option-cases, get_elem?,
}
use sloader.Result.{Failure, Result, check_failed, aborted}
use sloader.Result.Ends.{Ends, returns, fails}
use sloader.Result.Ends
use sloader.Base.Words.{add64}
use sloader.Memory.{Mem}
use sloader.Elf.{Elf64Rela, Elf64Sym, r_sym, r_type}
use sloader.Elf.Relocs.{copy, tpoff64}
use sloader.Binary.{ElfBinary}
use sloader.Loader.Symbols.{sym_name, search_sym, tls_offset_from, tls_sym_offset}
use sloader.Loader.Symbols.First.{Resolves, search_sym-Resolves}
use sloader.Loader.Relocate.{
  Libc, resolve, apply_symbol, copy_source, apply_copy, apply_tpoff, Case, symbol_address,
  base_relative, symbol_plus_addend, thread_offset, module_number, no_action, copied, unsupported,
  case_of, apply_case, relocate_rela,
}
use sloader.Loader.Relocate.Resolve.{
  Resolves-Entry, resolve-Lookup, Lookup, from_libc, from_binary, not_found,
}
use sloader.Loader.Relocate.Stuck.{
  Stuck, no_symbol, unknown_type, nothing_to_copy, no_variable, at_index-some, case_of-unknown,
  case_of-copied, case_of-thread, at_index-none, tls_offset_from-none,
}

-- A lookup returns.
resolve-Ends :
    {why : Failure → Type 0} (libc : Libc) (m : Mem) (bins : List ElfBinary) (name : Str)
    → Ends why (resolve libc m bins name)
resolve-Ends {why} libc m bins name = go (resolve-Lookup libc m bins name)
  where
    go : {r : Result (Option ℕ)} → Lookup libc m bins name r → Ends why r
    go (from_libc addr e) = returns (some addr)
    go (from_binary i j b s e f g) = returns (some (add64 s.st_value b.base_addr))
    go (not_found e f g) = returns none

module _ (libc : Libc) (bins : List ElfBinary) (bin : ElfBinary) (r : Elf64Rela) (m : Mem)
    (s : Elf64Sym) (at : get_elem? bin.symtabs (r_sym r) ≡ some s) where
  abbrev name_here : Str
  name_here = sym_name m bin s

  found_source-Ends :
      (o : Option (ℕ × ℕ))
      → r_type r ≡ copy
      → libc.libc_map name_here ≡ none
      → Resolves m bins name_here 1 o
      → search_sym m bins name_here true ≡ o
      → Ends (Stuck libc bins bin r m) (copy_source libc m bins name_here)
  unfolding copy_source
  found_source-Ends none type absent (d, w) e =
      rw (absent, e, copy_source)
        (fails aborted
          (nothing_to_copy s at type absent (record { no_definition = d; no_weak_symbol = w })))
  found_source-Ends (some (i, j)) type absent h e =
      let (b, t, entry) = Resolves-Entry m bins name_here 1 i j h in
      rw (absent, e, copy_source)
        (rw (at_index-some bins i entry.binary)
          (rw (at_index-some b.symtabs j entry.symbol) (returns _)))

  copy_source-Ends :
      r_type r ≡ copy → Ends (Stuck libc bins bin r m) (copy_source libc m bins name_here)
  unfolding copy_source
  copy_source-Ends type = elim (Option-cases (libc.libc_map name_here)) [
    | inr (a, e) ↦ rw (e, copy_source) (returns (a, 8))
    | inl e ↦ found_source-Ends _ type e (search_sym-Resolves m bins name_here true) refl
  ]

  tls_sym_offset-Ends :
      r_type r ≡ tpoff64
      → Ends (Stuck libc bins bin r m) (tls_sym_offset libc.space m bins name_here)
  unfolding tls_sym_offset
  tls_sym_offset-Ends type = elim (Option-cases (tls_offset_from m name_here 0 bins)) [
    | inr (o, e) ↦ rw (e, tls_sym_offset) (returns o)
    | inl e ↦ elim (Option-cases (libc.space.libc_variables name_here)) [
      | inr (a, e') ↦ rw (e, e', tls_sym_offset) (returns _)
      | inl e' ↦
          rw (e, e', tls_sym_offset)
            (fails aborted (no_variable s at type (tls_offset_from-none m name_here bins 0 e) e'))
    ]
  ]

  apply_case-Ends :
      (c : Case)
      → case_of (r_type r) ≡ c
      → Ends (Stuck libc bins bin r m) (apply_case libc bins bin r name_here m c)
  unfolding apply_case apply_symbol apply_copy apply_tpoff
  apply_case-Ends symbol_address e = Ends.bind (resolve-Ends libc m bins name_here) (λ a. returns _)
  apply_case-Ends base_relative e = returns _
  apply_case-Ends symbol_plus_addend e =
      Ends.bind (resolve-Ends libc m bins name_here) (λ a. returns _)
  apply_case-Ends thread_offset e =
      Ends.bind (tls_sym_offset-Ends (case_of-thread (r_type r) e)) (λ a. returns _)
  apply_case-Ends module_number e = returns _
  apply_case-Ends no_action e = returns _
  apply_case-Ends copied e =
      Ends.bind (copy_source-Ends (case_of-copied (r_type r) e)) (λ a. returns _)
  apply_case-Ends unsupported e = fails aborted (unknown_type s at (case_of-unknown (r_type r) e))

pub relocate_rela-Ends :
    (libc : Libc) (bins : List ElfBinary) (bin : ElfBinary) (r : Elf64Rela) (m : Mem)
    → Ends (Stuck libc bins bin r m) (relocate_rela libc bins bin r m)
unfolding relocate_rela
relocate_rela-Ends libc bins bin r m = elim (Option-cases (get_elem? bin.symtabs (r_sym r))) [
  | inl e ↦ rw (at_index-none bin.symtabs (r_sym r) e) (fails check_failed (no_symbol e))
  | inr (s, e) ↦
      rw (at_index-some bin.symtabs (r_sym r) e)
        (apply_case-Ends libc bins bin r m s e (case_of (r_type r)) refl)
]
