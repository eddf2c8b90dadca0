-- ===== src/Elf/Relocs.antt =====
-- The relocation types of <elf.h> for x86-64 that the loader applies.
use sloader.Base.{ℕ}

abbrev pub r64 : ℕ
r64 = 1

abbrev pub copy : ℕ
copy = 5

abbrev pub glob_dat : ℕ
glob_dat = 6

abbrev pub jump_slot : ℕ
jump_slot = 7

abbrev pub relative : ℕ
relative = 8

abbrev pub dtpmod64 : ℕ
dtpmod64 = 16

abbrev pub dtpoff64 : ℕ
dtpoff64 = 17

abbrev pub tpoff64 : ℕ
tpoff64 = 18

abbrev pub irelative : ℕ
irelative = 37
