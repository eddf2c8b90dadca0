-- ===== src/Base/Words.antt =====
-- 64-bit words: wrap-around arithmetic and the rounding of addresses.
use Prim.Native.Nat.{ℕ, ◌+◌, ◌-◌, ◌*◌, ◌/◌, ◌%◌, ◌^◌, ◌≤◌, ◌<◌}
use mathlib.Core.Path.{◌≡◌}
use native.Mathlib.Omega.{arith}

abbrev pub word : ℕ → ℕ
word x = x % 2 ^ 64

abbrev pub add64 : ℕ → ℕ → ℕ
add64 a b = (a + b) % 2 ^ 64

-- a - b on `uint64_t`, which wraps; the operands are words.
abbrev pub sub64 : ℕ → ℕ → ℕ
sub64 a b = (a + 2 ^ 64 - b) % 2 ^ 64

-- x & ~0xfff
abbrev pub page_down : ℕ → ℕ
page_down x = x / 4096 * 4096

-- (x + 0xfff) & ~0xfff
abbrev pub page_up : ℕ → ℕ
page_up x = page_down (add64 x 0xfff)

pub page_up_bounds :
    (x : ℕ) → x + 0xfff < 2 ^ 64 → (x ≤ page_up x) × (page_up x < x + 4096) × (page_up x % 4096 ≡ 0)
page_up_bounds x h = (omega arith, omega arith, omega arith)

pub page_down_bounds :
    (x : ℕ) → (page_down x ≤ x) × (x < page_down x + 4096) × (page_down x % 4096 ≡ 0)
page_down_bounds x = (omega arith, omega arith, omega arith)
