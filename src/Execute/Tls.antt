-- ===== src/Execute/Tls.antt =====
-- DynLoader::Execute, third part: the thread-local blocks of the loaded binaries; tls_secure.cc.
pub mod Block
pub mod Bounds
pub mod GetAddr
pub mod Image
pub mod Offsets
pub mod Overwrite
use sloader.Base.{ℕ, ◌+◌, ◌-◌, ◌≤◌, ◌^◌, Bool, List, [], ◌∷◌, leb, if◌then◌else◌}
use sloader.Base.Words.{add64, sub64}
use sloader.Result.{Result, ok, check, ◌>>=◌, ◌>>◌}
use sloader.Memory.{Mem, put, write64, memcpy, memset}
use sloader.Binary.{ElfBinary}

-- TLS_SPACE_FOR_LOADEE, the size of `sloader_dummy_to_secure_tls_space` and the first value of
-- `sloader_tls_offset`.
abbrev pub tls_space : ℕ
tls_space = 4096

-- `write_sloader_dummy_to_secure_tls_space`, for the array at `block`
unfoldable pub write_dummy : Mem → ℕ → Mem
write_dummy m block =
    let m1 : Mem =
      put (put (put (put m block 0xaa) (block + 1) 0xaa) (block + 2) 0xaa) (block + 3) 0xaa in
    put
      (put (put (put m1 (block + (tls_space - 4)) 0xab) (block + (tls_space - 3)) 0xcd)
        (block + (tls_space - 2)) 0xab)
      (block + (tls_space - 1)) 0xcd

-- The loop that adds the sizes up.
unfoldable pub tls_block_size : ℕ → List ElfBinary → ℕ
tls_block_size size [] = size
tls_block_size size (b ∷ rest) =
    tls_block_size (if b.has_tls then add64 size b.file_tls.p_memsz else size) rest

-- The block of one binary, below `offset`: .tdata, zeros, and a word that holds its own address.
unfoldable pub place_tls : ℕ → ElfBinary → ℕ → Mem → Mem
place_tls block b offset m =
    let memsz : ℕ = b.file_tls.p_memsz in
    let filesz : ℕ = b.file_tls.p_filesz in
    let here : ℕ = add64 block offset in
    let tbss : ℕ = sub64 memsz filesz in
    let m1 : Mem = memcpy m (sub64 here memsz) (add64 b.base_addr b.file_tls.p_vaddr) memsz in
    let m2 : Mem = memset m1 (sub64 here tbss) 0 tbss in write64 m2 here here

-- The loop over the binaries, with `sloader_tls_offset`.
unfoldable pub place_all : ℕ → List ElfBinary → ℕ → Mem → ℕ × Mem
unfolding place_tls
place_all block [] offset m = (offset, m)
place_all block (b ∷ rest) offset m =
    if b.has_tls
    then place_all block rest (sub64 offset b.file_tls.p_memsz) (place_tls block b offset m)
    else place_all block rest offset m

-- The new `sloader_tls_offset`, and the memory.
unfoldable pub init_tls : ℕ → List ElfBinary → ℕ → Mem → Result (ℕ × Mem)
unfolding tls_block_size place_all
init_tls block bins offset m = do
  check (leb (tls_block_size 0 bins) 4096)
  ok (place_all block bins offset m)

-- `sloader_tls_get_addr` of libc_mapping.cc
unfoldable pub tls_get_addr : ℕ → ℕ → ℕ → ℕ
tls_get_addr block offset ti_offset = add64 (add64 block offset) ti_offset
