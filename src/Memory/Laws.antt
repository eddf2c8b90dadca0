-- ===== src/Memory/Laws.antt =====
-- Reads after writes, what a write leaves alone, and C strings.
use sloader.Base.{
  ℕ, zero, suc, ◌+◌, ◌*◌, ◌/◌, ◌%◌, ◌^◌, ◌≤◌, ◌<◌, ◌≡◌, ◌∙◌, ◌≢◌, ◌⊎◌, [], ◌∷◌, arith, length, Str,
}
use native.Mathlib.Nat.{add_assoc}
use sloader.Memory.{Mem, read32, read64, write64, copy_from, memset, cstring, c_str}

-- `x` lies outside the `n` bytes from `a`.
abbrev pub Outside : ℕ → ℕ → ℕ → Type 0
Outside a n x = (x < a) ⊎ (a + n ≤ x)

pub write64-Outside : (m : Mem) (a v x : ℕ) → Outside a 8 x → write64 m a v x ≡ m x
unfolding write64
write64-Outside m a v x h = ground arith

pub copy_from-Outside :
    (from m : Mem) (dest src n x : ℕ) → Outside dest n x → copy_from from m dest src n x ≡ m x
unfolding copy_from
copy_from-Outside from m dest src n x h = ground arith

pub memset-Outside : (m : Mem) (dest v n x : ℕ) → Outside dest n x → memset m dest v n x ≡ m x
unfolding memset
memset-Outside m dest v n x h = ground arith

-- The eight bytes that a 64-bit write leaves.
record Bytes (g : Mem) (a v : ℕ) : Type 0 where
  b0 : g a ≡ v % 256
  b1 : g (a + 1) ≡ v / 256 % 256
  b2 : g (a + 2) ≡ v / 65536 % 256
  b3 : g (a + 3) ≡ v / 16777216 % 256
  b4 : g (a + 4) ≡ v / 4294967296 % 256
  b5 : g (a + 5) ≡ v / 1099511627776 % 256
  b6 : g (a + 6) ≡ v / 281474976710656 % 256
  b7 : g (a + 7) ≡ v / 72057594037927936 % 256

write64-Bytes : (m : Mem) (a v : ℕ) → Bytes (write64 m a v) a v
unfolding write64
write64-Bytes m a v = record {
  b0 = ground arith;
  b1 = ground arith;
  b2 = ground arith;
  b3 = ground arith;
  b4 = ground arith;
  b5 = ground arith;
  b6 = ground arith;
  b7 = ground arith;
}

read32_lem :
    (g : Mem) (a b : ℕ)
    → a ≡ b
    → read32 g a ≡ g b + 256 * g (b + 1) + 65536 * g (b + 2) + 16777216 * g (b + 3)
unfolding read32
read32_lem g a b e = rw e

high_half :
    (g : Mem) (a : ℕ)
    → read32 g (a + 4) ≡ g (a + 4) + 256 * g (a + 5) + 65536 * g (a + 6) + 16777216 * g (a + 7)
unfolding read32
high_half g a = cc (add_assoc a 4 1, add_assoc a 4 2, add_assoc a 4 3)

Bytes-read64 : (g : Mem) (a v : ℕ) → v < 2 ^ 64 → Bytes g a v → read64 g a ≡ v
unfolding read64
Bytes-read64 g a v h b =
    rw (high_half g a, b.b0, b.b1, b.b2, b.b3, b.b4, b.b5, b.b6, b.b7) (omega arith)

-- A word reads back as written.
pub read64-write64 : (m : Mem) (a v : ℕ) → v < 2 ^ 64 → read64 (write64 m a v) a ≡ v
read64-write64 m a v h = Bytes-read64 _ a v h (write64-Bytes m a v)

-- A read sees eight bytes only.
pub read64_ext :
    (g m : Mem) (a : ℕ) → ((x : ℕ) → a ≤ x → x < a + 8 → g x ≡ m x) → read64 g a ≡ read64 m a
unfolding read64
read64_ext g m a same = rw (
  high_half g a,
  high_half m a,
  same a (omega arith) (omega arith),
  same (a + 1) (omega arith) (omega arith),
  same (a + 2) (omega arith) (omega arith),
  same (a + 3) (omega arith) (omega arith),
  same (a + 4) (omega arith) (omega arith),
  same (a + 5) (omega arith) (omega arith),
  same (a + 6) (omega arith) (omega arith),
  same (a + 7) (omega arith) (omega arith),
)

pub read64-write64_ne :
    (m : Mem) (a b v : ℕ) → (b + 8 ≤ a) ⊎ (a + 8 ≤ b) → read64 (write64 m a v) b ≡ read64 m b
read64-write64_ne m a b v apart = read64_ext _ m b λ x lo hi. write64-Outside m a v x (omega arith)

-- The bytes of `s` and a terminator stand at `a`.
abbrev pub HoldsString : Mem → ℕ → Str → Type 0
HoldsString m a [] = m a ≡ 0
HoldsString m a (c ∷ s) = (m a ≡ c) × (c ≢ 0) × HoldsString m (a + 1) s

pub cstring_holds :
    (fuel : ℕ) (m : Mem) (a : ℕ) (s : Str)
    → HoldsString m a s
    → length s < fuel
    → cstring fuel m a ≡ s
unfolding cstring
cstring_holds zero m a s h f = elim f [ ]
cstring_holds (suc fuel) m a [] h f = rw h
cstring_holds (suc fuel) m a (c ∷ s) (e, ne, h) f = ground (arith, cstring_holds fuel m (a + 1) s h)

pub c_str_holds :
    (m : Mem) (a : ℕ) (s : Str) → HoldsString m a s → length s < 2 ^ 64 → c_str m a ≡ s
unfolding c_str
c_str_holds m a s h f = cstring_holds (2 ^ 64) m a s h f

pub HoldsString-ext :
    (m g : Mem) (a : ℕ) (s : Str)
    → ((x : ℕ) → a ≤ x → x ≤ a + length s → g x ≡ m x)
    → HoldsString m a s
    → HoldsString g a s
HoldsString-ext m g a [] same h = same a (omega arith) (omega arith) ∙ h
HoldsString-ext m g a (c ∷ s) same (e, ne, h) = (
  same a (omega arith) (omega arith) ∙ e,
  ne,
  HoldsString-ext m g (a + 1) s (λ x lo hi. same x (omega arith) (omega arith)) h,
)
