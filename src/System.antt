-- ===== src/System.antt =====
-- What the loader asks of the kernel, the C library and the file system, as a parameter, and the
-- process state that it changes.
use sloader.Base.{ℕ, Bool, Option, List, [], ◌∷◌, ◌++◌, Str}
use sloader.Memory.{Mem, memset}
use sloader.Elf.{Elf64Phdr}

-- The file that `open` and `mmap` give: its size and its bytes.
pub record File : Type 0 where
  pub size : ℕ
  pub bytes : Mem

-- An anonymous mapping.
pub record Region : Type 0 where
  pub start : ℕ
  pub size : ℕ
  pub prot : ℕ

pub record System : Type 0 where
  -- `open`, `lseek` and `mmap` of a file; `none` if `open` or `mmap` fails, each of which a CHECK finds
  pub open_file : Str → Option File
  -- where `mmap` without MAP_FIXED puts a mapping, given those of before, the address asked for and
  -- the size
  pub place : List Region → ℕ → ℕ → ℕ
  pub getenv : Str → Option Str
  pub getauxval : ℕ → ℕ
  pub exists : Str → Bool
  pub is_regular_file : Str → Bool
  pub is_directory : Str → Bool
  -- the file names that `directory_iterator` yields, in its order
  pub list_directory : Str → List Str
  pub read_file : Str → Option Str
  pub glob : Str → List Str
  -- a member that the constructor does not initialise
  pub uninitialised : Elf64Phdr

-- What the loader changes: the memory, the anonymous mappings in the order in which they were made,
-- and the map file.
pub record Machine : Type 0 where
  pub mem : Mem
  pub maps : List Region
  -- the text written to `map_file_`
  pub map_file : Str

-- `mmap(start, size, prot, MAP_SHARED | MAP_ANONYMOUS, -1, 0)`: fresh pages are zero
unfoldable pub map_anonymous : System → ℕ → ℕ → ℕ → Machine → ℕ × Machine
map_anonymous sys start size prot k =
    let p : ℕ = sys.place k.maps start size in
    (
      p,
      record k {
        mem = memset k.mem p 0 size;
        maps = k.maps ++ (record { start = p; size = size; prot = prot } ∷ []);
      },
    )
