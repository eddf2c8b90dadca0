-- ===== src/ExecLoader.antt =====
-- exec_loader.h: the loader of statically linked programs.
pub mod Stack
pub mod Memories
use mathlib.Core.List.{reverse}
use sloader.Base.{
  ℕ, zero, suc, ◌+◌, ◌*◌, ◌%◌, ◌^◌, ◌==◌, not, Bool, Option, none, some, List, [], ◌∷◌, ◌++◌, ltb,
  leb, length, replicate, Str, if◌then◌else◌,
}
use sloader.Base.Words.{add64, sub64, page_down, page_up}
use sloader.Result.{Result, ok, err, check, check_failed, ◌>>=◌, ◌>>◌}
use sloader.System.{System, Machine, map_anonymous}
use sloader.Memory.{Mem, copy_from}
use sloader.Elf.{Elf64Ehdr, Elf64Phdr, read_ehdr, read_phdr}
use sloader.Elf.Tags.{pt_dynamic, pt_load}
use sloader.Execute.Stack.{aux_types, aux_values, Builder, put, put_all, skip, put_auxs, push_all}

-- `head` is what `head_` points at.
pub record ExecLoader : Type 0 where
  pub head : Mem
  pub size : ℕ
  pub filename : Str
  pub ehdr : Elf64Ehdr
  pub phdrs : List Elf64Phdr
  pub ph_dynamic : Option Elf64Phdr
  pub memories : List (ℕ × ℕ)

-- The first loop of the constructor: `n` headers from `i`
unfoldable pub phdrs_from : Mem → Elf64Ehdr → ℕ → ℕ → List Elf64Phdr
phdrs_from head ehdr zero i = []
phdrs_from head ehdr (suc n) i =
    read_phdr head (ehdr.e_phoff + i * ehdr.e_phentsize) ∷ phdrs_from head ehdr n (i + 1)

-- `CHECK(ph_dynamic_ == NULL)`
unfoldable pub set_dynamic : Option Elf64Phdr → Elf64Phdr → Result (Option Elf64Phdr)
set_dynamic none ph = ok (some ph)
set_dynamic (some old) ph = err check_failed

-- The second loop: at most one PT_DYNAMIC
unfoldable pub find_dynamic : List Elf64Phdr → Option Elf64Phdr → Result (Option Elf64Phdr)
unfolding set_dynamic
find_dynamic [] found = ok found
find_dynamic (ph ∷ rest) found =
    let skip = find_dynamic rest found in
    if ph.p_type == pt_dynamic
    then (do found' ← set_dynamic found ph; find_dynamic rest found')
    else skip

-- `ExecLoader::ExecLoader`
unfoldable pub exec_loader : Str → Mem → ℕ → Result ExecLoader
unfolding phdrs_from find_dynamic
exec_loader filename head size = do
  let ehdr = read_ehdr head 0
  let phdrs = phdrs_from head ehdr ehdr.e_phnum 0
  ph_dynamic ← find_dynamic phdrs none
  ok (record {
    head = head;
    size = size;
    filename = filename;
    ehdr = ehdr;
    phdrs = phdrs;
    ph_dynamic = ph_dynamic;
    memories = [];
  })

-- `MakeExecLoader`
unfoldable pub make_exec_loader : System → Str → Str → Result ExecLoader
unfolding exec_loader
make_exec_loader sys filepath argv0 = elim (sys.open_file filepath) [
  | none ↦ err check_failed
  | some f ↦ do check (ltb (8 + 16) f.size); exec_loader argv0 f.bytes (page_up f.size)
]

-- One segment of `ExecLoader::Load`. `memories_` keeps the size in 32 bits.
unfoldable pub load_segment :
    System → Elf64Phdr → ExecLoader → Machine → Result (ExecLoader × Machine)
unfolding map_anonymous copy_from
load_segment sys ph l k = do
  let mmap_start = page_down ph.p_vaddr
  let mmap_end = page_up (add64 ph.p_vaddr ph.p_memsz)
  let (p, k') = map_anonymous sys mmap_start (sub64 mmap_end mmap_start) 7 k
  check (mmap_start == p)
  check (leb mmap_start ph.p_vaddr)
  check (ltb (add64 ph.p_vaddr ph.p_memsz) mmap_end)
  ok (
    record l { memories = l.memories ++ ((p, ph.p_memsz % 2 ^ 32) ∷ []) },
    record k' { mem = copy_from l.head k'.mem ph.p_vaddr ph.p_offset ph.p_filesz },
  )

unfoldable pub load_segments :
    System → List Elf64Phdr → ExecLoader → Machine → Result (ExecLoader × Machine)
unfolding load_segment
load_segments sys [] l k = ok (l, k)
load_segments sys (ph ∷ rest) l k =
    let skip = load_segments sys rest l k in
    if ph.p_type == pt_load
    then (do (l', k') ← load_segment sys ph l k; load_segments sys rest l' k')
    else skip

-- `ExecLoader::Load`
unfoldable pub load : System → ExecLoader → Machine → Result (ExecLoader × Machine)
unfolding load_segments
load sys l k = load_segments sys l.phdrs l k

-- `ExecLoader::Unload`: the calls of `munmap`, which is a parameter
unfoldable pub unload : (ℕ → ℕ → Machine → Machine) → List (ℕ × ℕ) → Machine → Machine
unload munmap [] k = k
unload munmap ((start, n) ∷ rest) k = unload munmap rest (munmap start n k)

-- The array of `ExecLoader::Execute`, for the addresses of the strings.
unfoldable pub exec_stack : List (ℕ × ℕ) → List ℕ → ℕ → Result (List ℕ)
unfolding put put_all skip put_auxs
exec_stack auxs envs filename = do
  let stack_num = 4 + 2 + 2 * length auxs + 1 + length envs + 3
  let s0 : Builder = record { stack = replicate stack_num 0; stack_index = 0 }
  let s1 = put_auxs auxs (skip 2 (skip 4 s0))
  let s2 = put_all envs (skip 1 s1)
  let s3 = put filename (skip 1 s2)
  let s4 = put 1 s3
  check (s4.stack_index == stack_num)
  ok s4.stack

-- `ExecLoader::Execute`: the entry point, the stack pointer and the memory
unfoldable pub execute : System → ExecLoader → List ℕ → ℕ → ℕ → Mem → Result (ℕ × ℕ × Mem)
unfolding aux_values exec_stack push_all
execute sys l envs filename rsp m = do
  check (not (sys.getauxval 25 == 0))
  stack ← exec_stack (aux_values sys aux_types) envs filename
  let (rsp', m') = push_all stack rsp m
  ok (l.ehdr.e_entry, rsp', m')
