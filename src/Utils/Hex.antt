-- ===== src/Utils/Hex.antt =====
-- The HexString templates of utils.h.
pub mod Laws
use sloader.Base.{
  ℕ, zero, suc, ◌+◌, ◌-◌, ◌/◌, ◌%◌, Option, none, some, [], ◌∷◌, ◌++◌, ltb, if◌then◌else◌, length,
  replicate, Str, codes,
}

-- One upper-case hexadecimal digit.
unfoldable pub hex_digit : ℕ → ℕ
hex_digit n = if ltb n 10 then b'0' + n else b'A' + (n - 10)

-- `std::hex << n`: the digits of a 64-bit word, at most sixteen.
unfoldable pub hex_digits : ℕ → ℕ → Str
unfolding hex_digit
hex_digits zero n = []
hex_digits (suc fuel) n =
    let more = hex_digits fuel (n / 16) in
    if ltb n 16 then hex_digit n ∷ [] else more ++ (hex_digit (n % 16) ∷ [])

-- "0x" << std::setfill('0') << std::setw(width) << std::hex << n
unfoldable pub put_hex : ℕ → ℕ → Str
unfolding hex_digits
put_hex n width =
    let digits = hex_digits 16 n in codes "0x" ++ (replicate (width - length digits) b'0' ++ digits)

-- `HexString(T* num, int length = -1)`
unfoldable pub hex_string_pointer : ℕ → Option ℕ → Str
unfolding put_hex
hex_string_pointer n none = put_hex n 16
hex_string_pointer n (some width) = put_hex n width

-- `HexString(T num, int length = -1)` for a type of `size` bytes
unfoldable pub hex_string : (size : ℕ) → ℕ → Option ℕ → Str
unfolding put_hex
hex_string size n none = put_hex n (size / 2)
hex_string size n (some width) = put_hex n width
