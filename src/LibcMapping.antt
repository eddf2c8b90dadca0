-- ===== src/LibcMapping.antt =====
-- libc_mapping.cc: the names of libc that the loader binds itself, and what they are bound to.
pub mod Table1
pub mod Table2
pub mod Table3
pub mod Table4
pub mod Table5
pub mod Table6
pub mod Table7
pub mod Table8
pub mod Table
pub mod Entries
pub mod Binding
pub mod Calls
pub mod Meaning
use sloader.Base.{List, String}

-- `&x` or `x` in a `reinterpret_cast<Elf64_Addr>`, for a name `x` of the source, which need not be the
-- name of a symbol
pub data Operand : Type 0 where
  address_of : String → Operand
  value_of : String → Operand

abbrev pub Entry : Type 0
Entry = String × Operand
