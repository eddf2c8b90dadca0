-- ===== src/Utils/Show.antt =====
-- The Show functions of utils.cc. A `switch` that returns literals is a table from the case's value
-- to the text, read from the top.
pub mod Laws
use sloader.Base.{
  ℕ, zero, suc, ◌+◌, ◌/◌, ◌%◌, Bool, Option, none, some, List, [], ◌∷◌, ◌++◌, ltb, ◌==◌,
  if◌then◌else◌, Str, codes,
}
use sloader.Result.{Result, ok, err, aborted, ◌>>=◌}
use sloader.Memory.{Mem, c_str}
use sloader.Elf.{Elf64Rela, Elf64Sym, r_sym, r_type, st_bind, st_type}
use sloader.Utils.Hex.{hex_string}

abbrev pub Table : Type 0
Table = List (ℕ × Str)

-- `switch (key)`: the text of the first case that fits
unfoldable pub switch : ℕ → Table → Option Str
switch key [] = none
switch key ((case, text) ∷ rest) = if key == case then some text else switch key rest

abbrev pub relocation_types : Table
relocation_types =
    (0, codes "R_X86_64_NONE")
    ∷ (1, codes "R_X86_64_64")
    ∷ (2, codes "R_X86_64_PC32")
    ∷ (3, codes "R_X86_64_GOT32")
    ∷ (4, codes "R_X86_64_PLT32")
    ∷ (5, codes "R_X86_64_COPY")
    ∷ (6, codes "R_X86_64_GLOB_DAT")
    ∷ (7, codes "R_X86_64_JUMP_SLOT")
    ∷ (8, codes "R_X86_64_RELATIVE")
    ∷ (9, codes "R_X86_64_GOTPCREL")
    ∷ (10, codes "R_X86_64_32")
    ∷ (11, codes "R_X86_64_32S")
    ∷ (12, codes "R_X86_64_16")
    ∷ (13, codes "R_X86_64_PC16")
    ∷ (14, codes "R_X86_64_8")
    ∷ (15, codes "R_X86_64_PC8")
    ∷ (16, codes "R_X86_64_DTPMOD64")
    ∷ (17, codes "R_X86_64_DTPOFF64")
    ∷ (18, codes "R_X86_64_TPOFF64")
    ∷ (19, codes "R_X86_64_TLSGD")
    ∷ (20, codes "R_X86_64_TLSLD")
    ∷ (21, codes "R_X86_64_DTPOFF32")
    ∷ (22, codes "R_X86_64_GOTTPOFF")
    ∷ (23, codes "R_X86_64_TPOFF32")
    ∷ (24, codes "R_X86_64_PC64")
    ∷ (25, codes "R_X86_64_GOTOFF64")
    ∷ (26, codes "R_X86_64_GOTPC32")
    ∷ (27, codes "R_X86_64_GOT64")
    ∷ (28, codes "R_X86_64_GOTPCREL64")
    ∷ (29, codes "R_X86_64_GOTPC64")
    ∷ (30, codes "R_X86_64_GOTPLT64")
    ∷ (31, codes "R_X86_64_PLTOFF64")
    ∷ (32, codes "R_X86_64_SIZE32")
    ∷ (33, codes "R_X86_64_SIZE64")
    ∷ (34, codes "R_X86_64_GOTPC32_TLSDESC")
    ∷ (36, codes "R_X86_64_TLSDESC")
    ∷ (37, codes "R_X86_64_IRELATIVE")
    ∷ (38, codes "R_X86_64_RELATIVE64")
    ∷ (41, codes "R_X86_64_GOTPCRELX")
    ∷ (42, codes "R_X86_64_REX_GOTPCRELX")
    ∷ (43, codes "R_X86_64_NUM")
    ∷ []

unfoldable pub show_relocation_type : ℕ → Str
unfolding switch hex_string
show_relocation_type type = elim (switch type relocation_types) [
  | some text ↦ text
  | none ↦ hex_string 4 type (some 4)
]

abbrev pub symbol_bindings : Table
symbol_bindings =
    (0, codes "STB_LOCAL")
    ∷ (1, codes "STB_GLOBAL")
    ∷ (2, codes "STB_WEAK")
    ∷ (3, codes "STB_NUM")
    ∷ (10, codes "STB_GNU_UNIQUE")
    ∷ (12, codes "STB_HIOS")
    ∷ (13, codes "STB_LOPROC")
    ∷ (15, codes "STB_HIPROC")
    ∷ []

-- `std::to_string` of a number below 100 000
unfoldable pub to_decimal : ℕ → ℕ → Str
to_decimal zero n = []
to_decimal (suc fuel) n =
    let more = to_decimal fuel (n / 10) in
    let last : Str = (b'0' + n % 10) ∷ [] in if ltb n 10 then last else more ++ last

unfoldable pub show_stb : ℕ → Str
unfolding switch to_decimal
show_stb bind = elim (switch bind symbol_bindings) [ some text ↦ text | none ↦ to_decimal 3 bind ]

abbrev pub symbol_types : Table
symbol_types =
    (0, codes "STT_NOTYPE")
    ∷ (1, codes "STT_OBJECT")
    ∷ (2, codes "STT_FUNC")
    ∷ (3, codes "STT_SECTION")
    ∷ (4, codes "STT_FILE")
    ∷ (5, codes "STT_COMMON")
    ∷ (6, codes "STT_TLS")
    ∷ (7, codes "STT_NUM")
    ∷ (10, codes "STT_GNU_IFUNC")
    ∷ []

unfoldable pub show_stt : ℕ → Result Str
unfolding switch
show_stt type = elim (switch type symbol_types) [ some text ↦ ok text | none ↦ err aborted ]

unfoldable pub show_rela : Elf64Rela → Str
unfolding hex_string show_relocation_type
show_rela r =
    codes "Elf_Rela{r_offset="
    ++ (hex_string 8 r.r_offset (some 8)
        ++ (codes ", r_info="
            ++ (hex_string 8 r.r_info (some 8)
                ++ (codes ", ELF64_R_SYM(r.r_info)="
                    ++ (hex_string 8 (r_sym r) (some 4)
                        ++ (codes ", ELF64_R_TYPE(r.r_info)="
                            ++ (show_relocation_type (r_type r)
                                ++ (codes ", r_addend="
                                    ++ (hex_string 8 r.r_addend (some 8) ++ codes "}")))))))))

-- `st_other` is an `unsigned char`, which the stream writes as the character itself.
unfoldable pub show_sym : Mem → Elf64Sym → (strtab : ℕ) → Result Str
unfolding hex_string show_stb show_stt to_decimal c_str
show_sym m s strtab = do
  let name = c_str m (strtab + s.st_name)
  type ← show_stt (st_type s)
  ok (
      codes "Elf64_Sym{st_name="
      ++ (name
          ++ (codes ", ELF64_ST_BIND(st_info)="
              ++ (show_stb (st_bind s)
                  ++ (codes ", ELF64_ST_TYPE(st_info)="
                      ++ (type
                          ++ (codes ", st_other="
                              ++ ((s.st_other ∷ [])
                                  ++ (codes ", st_shndx="
                                      ++ (to_decimal 5 s.st_shndx
                                          ++ (codes ", st_value="
                                              ++ (hex_string 8 s.st_value none
                                                  ++ (codes ", st_size="
                                                      ++ (hex_string 8 s.st_size none
                                                          ++ codes "}"))))))))))))))
