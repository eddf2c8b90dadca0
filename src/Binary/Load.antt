-- ===== src/Binary/Load.antt =====
-- ELFBinary::Load: each PT_LOAD segment gets its pages, and its bytes from the file.
use sloader.Base.{
  ℕ, ◌+◌, ◌*◌, ◌/◌, ◌%◌, some, List, [], ◌∷◌, ◌++◌, leb, ◌==◌, if◌then◌else◌, Str, codes,
}
use sloader.Base.Words.{add64, sub64, page_down, page_up}
use sloader.Result.{Result, ok, check, ◌>>=◌, ◌>>◌}
use sloader.System.{System, Machine, map_anonymous}
use sloader.Memory.{copy_from}
use sloader.Elf.{Elf64Phdr, ehdr_type_dyn}
use sloader.Elf.Tags.{pt_load, pf_r, pf_x}
use sloader.Utils.Hex.{hex_string, hex_string_pointer}
use sloader.Binary.{ElfBinary}
use sloader.Binary.Dynamic.{parse_dynamic}

-- `flags`, with PROT_READ = 1, PROT_WRITE = 2 and PROT_EXEC = 4; pages are always writable
unfoldable pub segment_prot : Elf64Phdr → ℕ
segment_prot ph = ph.p_flags / pf_r % 2 + 2 + 4 * (ph.p_flags / pf_x % 2)

unfoldable pub flags_str : Elf64Phdr → Str
flags_str ph =
    (if ph.p_flags / pf_r % 2 == 1 then codes "r" else codes "_")
    ++ (codes "w" ++ (if ph.p_flags / pf_x % 2 == 1 then codes "x" else codes "_"))

abbrev pub mmap_start : Elf64Phdr → ℕ → ℕ
mmap_start ph base = page_down (add64 ph.p_vaddr base)

abbrev pub mmap_end : Elf64Phdr → ℕ → ℕ
mmap_end ph base = page_up (add64 (add64 ph.p_vaddr ph.p_memsz) base)

-- The line that is written to `map_file`.
unfoldable pub map_line : ElfBinary → Elf64Phdr → Str
unfolding flags_str hex_string hex_string_pointer
map_line b ph =
    b.path
    ++ (codes " "
        ++ (hex_string 8 ph.p_offset (some 16)
            ++ (codes "-"
                ++ (hex_string 8 (add64 ph.p_offset ph.p_filesz) (some 16)
                    ++ (codes " "
                        ++ (flags_str ph
                            ++ (codes " "
                                ++ (hex_string 8 ph.p_filesz (some 16)
                                    ++ (codes " => "
                                        ++ (hex_string_pointer (mmap_start ph b.base_addr) (some 16)
                                            ++ (codes "-"
                                                ++ (hex_string_pointer (mmap_end ph b.base_addr)
                                                      (some 16)
                                                    ++ (10 ∷ [])))))))))))))

-- The body of the loop for a PT_LOAD header.
unfoldable pub load_segment :
    System → Elf64Phdr → ElfBinary → Machine → Result (ElfBinary × Machine)
unfolding map_anonymous segment_prot map_line copy_from
load_segment sys ph b k = do
  let first = mmap_start ph b.base_addr
  let last = mmap_end ph b.base_addr
  let addr = add64 ph.p_vaddr b.base_addr
  let (p, k') = map_anonymous sys first (sub64 last first) (segment_prot ph) k
  check (first == p)
  check (leb first addr)
  check (leb (add64 addr ph.p_memsz) last)
  ok (
    record b { end_addr = last },
    record k' {
      map_file = k'.map_file ++ map_line b ph;
      mem = copy_from b.file k'.mem addr ph.p_offset ph.p_filesz;
    },
  )

unfoldable pub load_segments :
    System → List Elf64Phdr → ElfBinary → Machine → Result (ElfBinary × Machine)
unfolding load_segment
load_segments sys [] b k = ok (b, k)
load_segments sys (ph ∷ rest) b k =
    if ph.p_type == pt_load
    then (do (b', k') ← load_segment sys ph b k; load_segments sys rest b' k')
    else load_segments sys rest b k

-- `(end_addr() + (0x400000 - 1)) / 0x400000 * 0x400000`
abbrev pub next_base : ℕ → ℕ
next_base last = add64 last 0x3fffff / 0x400000 * 0x400000

-- `(ehdr().e_type == ET_DYN) ? base_addr_arg : 0`
unfoldable pub load_base : ElfBinary → ℕ → ℕ
load_base b base_addr_arg = if b.ehdr.e_type == ehdr_type_dyn then base_addr_arg else 0

-- `ELFBinary::Load`: the loaded binary, the next base address and the memory
unfoldable pub load : System → ElfBinary → ℕ → Machine → Result (ElfBinary × ℕ × Machine)
unfolding load_base load_segments parse_dynamic
load sys b base_addr_arg k = do
  let base = load_base b base_addr_arg
  (b1, k1) ← load_segments sys b.file_phdrs (record b { base_addr = base; end_addr = base }) k
  b2 ← parse_dynamic k1.mem b1
  ok (b2, next_base b2.end_addr, k1)
