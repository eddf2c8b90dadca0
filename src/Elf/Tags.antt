-- ===== src/Elf/Tags.antt =====
-- Constants of <elf.h>: segment types and flags, dynamic tags, symbol sections, bindings, types.
use sloader.Base.{ℕ}

abbrev pub pt_load : ℕ
pt_load = 1

abbrev pub pt_dynamic : ℕ
pt_dynamic = 2

abbrev pub pt_tls : ℕ
pt_tls = 7

abbrev pub pf_x : ℕ
pf_x = 1

abbrev pub pf_r : ℕ
pf_r = 4

abbrev pub dt_needed : ℕ
dt_needed = 1

abbrev pub dt_pltrelsz : ℕ
dt_pltrelsz = 2

abbrev pub dt_strtab : ℕ
dt_strtab = 5

abbrev pub dt_symtab : ℕ
dt_symtab = 6

abbrev pub dt_rela : ℕ
dt_rela = 7

abbrev pub dt_relasz : ℕ
dt_relasz = 8

abbrev pub dt_relaent : ℕ
dt_relaent = 9

abbrev pub dt_strsz : ℕ
dt_strsz = 10

abbrev pub dt_syment : ℕ
dt_syment = 11

abbrev pub dt_init : ℕ
dt_init = 12

abbrev pub dt_fini : ℕ
dt_fini = 13

abbrev pub dt_rpath : ℕ
dt_rpath = 15

abbrev pub dt_rel : ℕ
dt_rel = 17

abbrev pub dt_pltrel : ℕ
dt_pltrel = 20

abbrev pub dt_jmprel : ℕ
dt_jmprel = 23

abbrev pub dt_init_array : ℕ
dt_init_array = 25

abbrev pub dt_fini_array : ℕ
dt_fini_array = 26

abbrev pub dt_init_arraysz : ℕ
dt_init_arraysz = 27

abbrev pub dt_fini_arraysz : ℕ
dt_fini_arraysz = 28

abbrev pub dt_runpath : ℕ
dt_runpath = 29

abbrev pub dt_relacount : ℕ
dt_relacount = 0x6ffffff9

abbrev pub shn_undef : ℕ
shn_undef = 0

abbrev pub stb_weak : ℕ
stb_weak = 2

abbrev pub stt_tls : ℕ
stt_tls = 6
