-- ===== src/Elf.antt =====
-- The structures and constants of <elf.h> that the loader reads, for little-endian ELF64.
pub mod Tags
pub mod Relocs
use sloader.Base.{ℕ, ◌+◌, ◌*◌, ◌/◌, ◌%◌, ◌^◌}
use sloader.Memory.{Mem, read16, read32, read64}

pub record Elf64Ehdr : Type 0 where
  pub e_type : ℕ
  pub e_entry : ℕ
  pub e_phoff : ℕ
  pub e_phentsize : ℕ
  pub e_phnum : ℕ

pub record Elf64Phdr : Type 0 where
  pub p_type : ℕ
  pub p_flags : ℕ
  pub p_offset : ℕ
  pub p_vaddr : ℕ
  pub p_filesz : ℕ
  pub p_memsz : ℕ

pub record Elf64Dyn : Type 0 where
  pub d_tag : ℕ
  pub d_val : ℕ

-- `r_addend` is kept as the bit pattern of the signed word.
pub record Elf64Rela : Type 0 where
  pub r_offset : ℕ
  pub r_info : ℕ
  pub r_addend : ℕ

pub record Elf64Sym : Type 0 where
  pub st_name : ℕ
  pub st_info : ℕ
  pub st_other : ℕ
  pub st_shndx : ℕ
  pub st_value : ℕ
  pub st_size : ℕ

unfoldable pub read_ehdr : Mem → ℕ → Elf64Ehdr
read_ehdr m a = record {
  e_type = read16 m (a + 16);
  e_entry = read64 m (a + 24);
  e_phoff = read64 m (a + 32);
  e_phentsize = read16 m (a + 54);
  e_phnum = read16 m (a + 56);
}

unfoldable pub read_phdr : Mem → ℕ → Elf64Phdr
read_phdr m a = record {
  p_type = read32 m a;
  p_flags = read32 m (a + 4);
  p_offset = read64 m (a + 8);
  p_vaddr = read64 m (a + 16);
  p_filesz = read64 m (a + 32);
  p_memsz = read64 m (a + 40);
}

unfoldable pub read_dyn : Mem → ℕ → Elf64Dyn
read_dyn m a = record { d_tag = read64 m a; d_val = read64 m (a + 8) }

unfoldable pub read_rela : Mem → ℕ → Elf64Rela
read_rela m a = record {
  r_offset = read64 m a;
  r_info = read64 m (a + 8);
  r_addend = read64 m (a + 16);
}

unfoldable pub read_sym : Mem → ℕ → Elf64Sym
read_sym m a = record {
  st_name = read32 m a;
  st_info = m (a + 4);
  st_other = m (a + 5);
  st_shndx = read16 m (a + 6);
  st_value = read64 m (a + 8);
  st_size = read64 m (a + 16);
}

-- ELF64_R_SYM, ELF64_R_TYPE, ELF64_ST_BIND, ELF64_ST_TYPE
abbrev pub r_sym : Elf64Rela → ℕ
r_sym r = r.r_info / 2 ^ 32

abbrev pub r_type : Elf64Rela → ℕ
r_type r = r.r_info % 2 ^ 32

abbrev pub st_bind : Elf64Sym → ℕ
st_bind s = s.st_info / 16

abbrev pub st_type : Elf64Sym → ℕ
st_type s = s.st_info % 16

abbrev pub ehdr_type_exec : ℕ
ehdr_type_exec = 2

abbrev pub ehdr_type_dyn : ℕ
ehdr_type_dyn = 3
