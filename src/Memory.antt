-- ===== src/Memory.antt =====
-- Byte-addressed memory, as the loader's pointer reads, writes, memcpy and memset use it.
-- An object that would pass the top of the address space is not modelled: addresses do not wrap.
pub mod Laws
use sloader.Base.{
  ℕ, zero, suc, ◌+◌, ◌-◌, ◌*◌, ◌/◌, ◌%◌, ◌^◌, List, [], ◌∷◌, Bool, ◌&&◌, ◌==◌, ltb, leb,
  if◌then◌else◌, Str,
}

abbrev pub Mem : Type 0
Mem = ℕ → ℕ

-- `lo <= x && x < lo + n`
abbrev pub within : ℕ → ℕ → ℕ → Bool
within lo n x = leb lo x && ltb x (lo + n)

abbrev pub put : Mem → ℕ → ℕ → Mem
put m a b x = if x == a then b else m x

unfoldable pub read16 : Mem → ℕ → ℕ
read16 m a = m a + 256 * m (a + 1)

unfoldable pub read32 : Mem → ℕ → ℕ
read32 m a = m a + 256 * m (a + 1) + 65536 * m (a + 2) + 16777216 * m (a + 3)

unfoldable pub read64 : Mem → ℕ → ℕ
unfolding read32
read64 m a = read32 m a + 4294967296 * read32 m (a + 4)

-- `*reinterpret_cast<uint64_t*>(a) = v`, least significant byte first
unfoldable pub write64 : Mem → ℕ → ℕ → Mem
write64 m a v =
    let m1 : Mem = put m a (v % 256) in
    let m2 : Mem = put m1 (a + 1) (v / 256 % 256) in
    let m3 : Mem = put m2 (a + 2) (v / 65536 % 256) in
    let m4 : Mem = put m3 (a + 3) (v / 16777216 % 256) in
    let m5 : Mem = put m4 (a + 4) (v / 4294967296 % 256) in
    let m6 : Mem = put m5 (a + 5) (v / 1099511627776 % 256) in
    let m7 : Mem = put m6 (a + 6) (v / 281474976710656 % 256) in
    put m7 (a + 7) (v / 72057594037927936 % 256)

-- `memcpy` of `n` bytes from the byte source `from` at `src`
unfoldable pub copy_from : Mem → Mem → ℕ → ℕ → ℕ → Mem
copy_from from m dest src n x = if within dest n x then from (src + (x - dest)) else m x

unfoldable pub memcpy : Mem → ℕ → ℕ → ℕ → Mem
unfolding copy_from
memcpy m dest src n = copy_from m m dest src n

unfoldable pub memset : Mem → ℕ → ℕ → ℕ → Mem
memset m dest v n x = if within dest n x then v else m x

-- The C string at an address. A string with no terminator would pass every address.
unfoldable pub cstring : ℕ → Mem → ℕ → Str
cstring zero m a = []
cstring (suc fuel) m a = let rest = cstring fuel m (a + 1) in if m a == 0 then [] else m a ∷ rest

unfoldable pub c_str : Mem → ℕ → Str
c_str m a = cstring (2 ^ 64) m a
