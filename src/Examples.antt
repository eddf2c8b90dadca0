-- ===== src/Examples.antt =====
-- A small system and small binaries, on which the theorems are tried.
pub mod Binaries
pub mod Loaders
pub mod Runs
pub mod Parts
pub mod Names
pub mod Copies
pub mod Starts
pub mod Texts
use sloader.Base.{
  ℕ, ◌==◌, Bool, true, false, Option, none, some, List, [], ◌∷◌, Str, codes, str_eq, if◌then◌else◌,
  ◌≡◌, refl, ◌<◌, ◌^◌, ◌&&◌, ltb, All, arith,
}
use sloader.Result.{Result, ok, err}
use sloader.System.{System, File, Machine}
use sloader.Memory.{Mem}
use sloader.Elf.{Elf64Phdr, Elf64Sym, Elf64Rela}
use sloader.Binary.{ElfBinary, members}
use sloader.Loader.{DynLoader, dyn_loader}
use sloader.Loader.Relocate.{Libc}

-- Memory with the bytes listed, and zeros elsewhere.
abbrev pub bytes_at : List (ℕ × ℕ) → Mem
bytes_at [] x = 0
bytes_at ((a, b) ∷ rest) x = let later = bytes_at rest x in if x == a then b else later

-- A shared object with one PT_LOAD of 192 bytes, 256 in memory, and a PT_DYNAMIC that holds
-- DT_STRTAB only.
abbrev pub object_bytes : Mem
object_bytes = bytes_at (
    (16, 3)
    ∷ (32, 64)
    ∷ (54, 56)
    ∷ (56, 2)
    ∷ (64, 1)
    ∷ (68, 5)
    ∷ (96, 192)
    ∷ (105, 1)
    ∷ (120, 2)
    ∷ (136, 176)
    ∷ (152, 16)
    ∷ (160, 16)
    ∷ (176, 5)
    ∷ [])

abbrev pub no_header : Elf64Phdr
no_header = record { p_type = 0; p_flags = 0; p_offset = 0; p_vaddr = 0; p_filesz = 0; p_memsz = 0 }

-- Every path is such a file, mappings go where they are asked for, and PATH has two directories.
abbrev pub one_object : System
one_object = record {
  open_file = λ path. some (record { size = 192; bytes = object_bytes });
  place = λ maps start size. start;
  getenv = λ name. if str_eq name (codes "PATH") then some (codes "/bin:/usr/bin") else none;
  getauxval = λ t. if t == 25 then 4096 else 0;
  exists = λ path. true;
  is_regular_file = λ path. true;
  is_directory = λ path. true;
  list_directory = λ path. codes "libm.so.6" ∷ [];
  read_file = λ path. none;
  glob = λ pattern. [];
  uninitialised = no_header;
}

abbrev pub empty_memory : Mem
empty_memory x = 0

abbrev pub fresh : Machine
fresh = record { mem = empty_memory; maps = []; map_file = [] }

abbrev pub new_loader : DynLoader
new_loader = record {
  binaries = [];
  main_path = codes "/bin/a";
  args = [];
  envs = [];
  next_base_addr = 0x1400000;
  loaded = [];
  relocated = [];
}

-- What a run returns, or `d` if it fails.
abbrev pub value_or {ℓ} : {A : Type ℓ} → A → Result A → A
value_or d (ok a) = a
value_or d (err e) = d

abbrev pub is_ok {ℓ} : {A : Type ℓ} → Result A → Bool
is_ok (ok a) = true
is_ok (err e) = false

pub value_or-eq {ℓ} : {A : Type ℓ} (d : A) (m : Result A) → is_ok m ≡ true → m ≡ ok (value_or d m)
value_or-eq d (ok a) h = refl
value_or-eq d (err e) h = cc

-- Every number fits into a word.
abbrev all_words : List ℕ → Bool
all_words [] = true
all_words (v ∷ vs) = ltb v (2 ^ 64) && all_words vs

pub words_All : (vs : List ℕ) → all_words vs ≡ true → All (λ (v : ℕ). v < 2 ^ 64) vs
words_All [] h = tt
words_All (v ∷ vs) h = (ground arith, words_All vs (ground arith))
