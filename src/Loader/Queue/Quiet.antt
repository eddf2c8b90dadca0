-- ===== src/Loader/Queue/Quiet.antt =====
-- Loading one library never exhausts the fuel of the queue loop.
use sloader.Base.{
  ℕ, zero, suc, ◌+◌, ◌≢◌, Option, none, some, List, [], ◌∷◌, ◌++◌, Str, Option-cases, inl, inr,
  length, codes,
}
use sloader.Result.{
  Result, check_failed, aborted, undefined_behaviour, out_of_fuel, queue_loop, symbol_loop,
  include_loop,
}
use sloader.Result.Without.{Without, fine, bind, branch, without_rules}
use sloader.System.{System, Machine}
use sloader.Memory.{Mem}
use sloader.Elf.{Elf64Dyn, Elf64Phdr, Elf64Sym, st_type}
use sloader.Utils.Show.{show_stt, show_sym, switch, symbol_types}
use sloader.Binary.{ElfBinary, elf_binary, filename}
use sloader.Binary.Dynamic.{
  dyn_entry, dyn_entries, entry_count, sym_size, parse_relas, parse_pltrelas, read_syms, log_syms,
  parse_symbols, parse_dynamic,
}
use sloader.Binary.Load.{load_segment, load_segments, load}
use sloader.Library.{
  ldsoconf_words, include_all, read_ldsoconf_dfs, read_ldsoconf, find_library, by_head, or_abort,
  next_word, skip_line, include_depth, search_directories, library_directories,
}
use sloader.Loader.{DynLoader, Request, load_binary, load_request}

abbrev pub Quiet {ℓ} : {A : Type ℓ} → Result A → Type ℓ
Quiet m = Without queue_loop m

-- The other ways to fail.
check_failed-ne : check_failed ≢ out_of_fuel queue_loop
check_failed-ne = λ p. cc p

aborted-ne : aborted ≢ out_of_fuel queue_loop
aborted-ne = λ p. cc p

undefined_behaviour-ne : undefined_behaviour ≢ out_of_fuel queue_loop
undefined_behaviour-ne = λ p. cc p

symbol_loop-ne : out_of_fuel symbol_loop ≢ out_of_fuel queue_loop
symbol_loop-ne = λ p. cc p

include_loop-ne : out_of_fuel include_loop ≢ out_of_fuel queue_loop
include_loop-ne = λ p. cc p

ruleset quiet_rules = (
  without_rules, check_failed-ne, aborted-ne, undefined_behaviour-ne, symbol_loop-ne,
  include_loop-ne,
)

show_stt-Quiet : (type : ℕ) → Quiet (show_stt type)
unfolding show_stt
show_stt-Quiet type = elim (Option-cases (switch type symbol_types)) [
  | inl e ↦ rw (e, show_stt) (search quiet_rules)
  | inr (t, e) ↦ rw (e, show_stt) (search quiet_rules)
]

log_syms-Quiet : (m : Mem) (strtab : ℕ) (syms : List Elf64Sym) → Quiet (log_syms m strtab syms)
unfolding log_syms show_sym
log_syms-Quiet m strtab [] = fine
log_syms-Quiet m strtab (s ∷ rest) =
    bind (bind (show_stt-Quiet (st_type s)) (λ _. fine)) (λ _. log_syms-Quiet m strtab rest)

read_syms-Quiet : (fuel : ℕ) (m : Mem) (strsz s : ℕ) → Quiet (read_syms fuel m strsz s)
unfolding read_syms
read_syms-Quiet zero m strsz s = search quiet_rules
read_syms-Quiet (suc fuel) m strsz s =
    branch _ (bind (read_syms-Quiet fuel m strsz (s + sym_size)) (λ _. fine)) fine

parse_symbols-Quiet : (m : Mem) (b : ElfBinary) → Quiet (parse_symbols m b)
unfolding parse_symbols
parse_symbols-Quiet m b = search (quiet_rules, read_syms-Quiet, log_syms-Quiet)

entry_count-Quiet : (size entry : ℕ) → Quiet (entry_count size entry)
unfolding entry_count
entry_count-Quiet size entry = search quiet_rules

parse_relas-Quiet : (m : Mem) (b : ElfBinary) → Quiet (parse_relas m b)
unfolding parse_relas
parse_relas-Quiet m b = search (quiet_rules, entry_count-Quiet)

parse_pltrelas-Quiet : (m : Mem) (b : ElfBinary) → Quiet (parse_pltrelas m b)
unfolding parse_pltrelas
parse_pltrelas-Quiet m b = search (quiet_rules, entry_count-Quiet)

dyn_entry-Quiet : (m : Mem) (dyn : Elf64Dyn) (b : ElfBinary) → Quiet (dyn_entry m dyn b)
unfolding dyn_entry
dyn_entry-Quiet m dyn b = search quiet_rules depth 20

dyn_entries-Quiet : (m : Mem) (dyns : List Elf64Dyn) (b : ElfBinary) → Quiet (dyn_entries m dyns b)
unfolding dyn_entries
dyn_entries-Quiet m [] b = fine
dyn_entries-Quiet m (dyn ∷ rest) b =
    bind (dyn_entry-Quiet m dyn b) (λ b'. dyn_entries-Quiet m rest b')

parse_dynamic-Quiet : (m : Mem) (b : ElfBinary) → Quiet (parse_dynamic m b)
unfolding parse_dynamic
parse_dynamic-Quiet m b =
    search
      (quiet_rules, dyn_entries-Quiet, parse_relas-Quiet, parse_pltrelas-Quiet, parse_symbols-Quiet)
      depth 9

load_segment-Quiet :
    (sys : System) (ph : Elf64Phdr) (b : ElfBinary) (k : Machine) → Quiet (load_segment sys ph b k)
unfolding load_segment
load_segment-Quiet sys ph b k = search quiet_rules

load_segments-Quiet :
    (sys : System) (phs : List Elf64Phdr) (b : ElfBinary) (k : Machine)
    → Quiet (load_segments sys phs b k)
unfolding load_segments
load_segments-Quiet sys [] b k = fine
load_segments-Quiet sys (ph ∷ rest) b k =
    branch _ (bind (load_segment-Quiet sys ph b k) (λ p. load_segments-Quiet sys rest p.0 p.1))
      (load_segments-Quiet sys rest b k)

load-Quiet : (sys : System) (b : ElfBinary) (base : ℕ) (k : Machine) → Quiet (load sys b base k)
unfolding load
load-Quiet sys b base k =
    bind (load_segments-Quiet sys b.file_phdrs _ k)
      (λ p. bind (parse_dynamic-Quiet p.1.mem p.0) (λ _. fine))

elf_binary-Quiet : (sys : System) (path : Str) → Quiet (elf_binary sys path)
unfolding elf_binary
elf_binary-Quiet sys path = elim (Option-cases (sys.open_file path)) [
  | inl e ↦ rw (e, elf_binary) (search quiet_rules)
  | inr (f, e) ↦ rw (e, elf_binary) (search quiet_rules)
]

pub load_binary-Quiet :
    (sys : System) (path : Str) (l : DynLoader) (k : Machine) → Quiet (load_binary sys path l k)
unfolding load_binary
load_binary-Quiet sys path l k =
    bind (elf_binary-Quiet sys path) (λ b. bind (load-Quiet sys b l.next_base_addr k) (λ _. fine))

include_all-Quiet :
    (read : List Str → Str → Result (List Str)) (res files : List Str)
    → ((r : List Str) (f : Str) → Quiet (read r f))
    → Quiet (include_all read res files)
unfolding include_all
include_all-Quiet read res [] h = fine
include_all-Quiet read res (f ∷ fs) h = bind (h res f) (λ r. include_all-Quiet read r fs h)

by_head-Quiet {ℓ} :
    {A : Type ℓ} (head : Str) {e c i d : Result A}
    → Quiet e
    → Quiet c
    → Quiet i
    → Quiet d
    → Quiet (by_head head e c i d)
unfolding by_head
by_head-Quiet [] e c i d = e
by_head-Quiet (x ∷ w) e c i d = branch _ c (branch _ i d)

-- One round of the loop over words, given the rest of the loop.
ldsoconf_words-Quiet :
    (sys : System) (include : List Str → List Str → Result (List Str)) (fuel : ℕ) (res : List Str)
    (text : Str)
    → ((r fs : List Str) → Quiet (include r fs))
    → Quiet (ldsoconf_words sys include fuel res text)
unfolding ldsoconf_words
ldsoconf_words-Quiet sys include zero res text h = search quiet_rules
ldsoconf_words-Quiet sys include (suc fuel) res text h =
    by_head-Quiet (next_word text).0 fine
      (ldsoconf_words-Quiet sys include fuel res (skip_line (next_word text).1) h)
      (bind (h res _) (λ res'. ldsoconf_words-Quiet sys include fuel res' _ h))
      (ldsoconf_words-Quiet sys include fuel (res ++ ((next_word text).0 ∷ [])) (next_word text).1
        h)

read_ldsoconf_dfs-Quiet :
    (sys : System) (depth : ℕ) (res : List Str) (name : Str)
    → Quiet (read_ldsoconf_dfs sys depth res name)
unfolding read_ldsoconf_dfs
read_ldsoconf_dfs-Quiet sys zero res name = search quiet_rules
read_ldsoconf_dfs-Quiet sys (suc depth) res name = elim (Option-cases (sys.read_file name)) [
  | inl e ↦ rw (e, read_ldsoconf_dfs) fine
  | inr (text, e) ↦
      rw (e, read_ldsoconf_dfs)
        (branch _ fine (
          ldsoconf_words-Quiet sys _ (length text + 1) res text
            (λ r fs. include_all-Quiet _ r fs (read_ldsoconf_dfs-Quiet sys depth))))
]

found-Quiet : (o : Option Str) → Quiet (or_abort o)
unfolding or_abort
found-Quiet none = search quiet_rules
found-Quiet (some path) = fine

find_library-Quiet :
    (sys : System) (name : Str) (runpath rpath : Option Str)
    → Quiet (find_library sys name runpath rpath)
unfolding find_library read_ldsoconf
find_library-Quiet sys name runpath rpath = branch _ fine (
    bind {m = read_ldsoconf sys}
      (read_ldsoconf_dfs-Quiet sys include_depth [] (codes "/etc/ld.so.conf"))
      (λ confs.
        found-Quiet
          (search_directories sys (filename name) (library_directories sys runpath rpath confs))))

-- The body of the queue loop.
pub load_request-Quiet :
    (sys : System) (r : Request) (l : DynLoader) (k : Machine) → Quiet (load_request sys r l k)
unfolding load_request
load_request-Quiet sys r l k = branch _ fine (
    bind (find_library-Quiet sys r.library_name r.runpath r.rpath)
      (λ path. bind (load_binary-Quiet sys path _ k) (λ _. fine)))
