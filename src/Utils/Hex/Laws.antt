-- ===== src/Utils/Hex/Laws.antt =====
-- A word can be read back from its HexString.
use sloader.Base.{
  ℕ, zero, suc, ◌+◌, ◌-◌, ◌*◌, ◌/◌, ◌%◌, ◌^◌, ◌<◌, ◌≡◌, refl, [], ◌∷◌, ◌++◌, arith, ltb, ltb→lt,
  if◌then◌else◌, replicate, drop, Str, Bool-cases, inl, inr, ◌≤◌, ◌⊎◌, length, codes,
}
use native.Mathlib.Nat.{pow-suc}
use sloader.Utils.Hex.{hex_digit, hex_digits, put_hex}

unfoldable pub digit_value : ℕ → ℕ
digit_value c = if ltb c b'A' then c - b'0' else c - b'A' + 10

-- The number that digits stand for, most significant first.
unfoldable pub digits_value : ℕ → Str → ℕ
digits_value acc [] = acc
digits_value acc (c ∷ s) = digits_value (acc * 16 + digit_value c) s

digit_value-hex_digit : (n : ℕ) → n < 16 → digit_value (hex_digit n) ≡ n
unfolding digit_value hex_digit
digit_value-hex_digit n h = ground arith

digits_value-append :
    (acc : ℕ) (s t : Str) → digits_value acc (s ++ t) ≡ digits_value (digits_value acc s) t
unfolding digits_value
digits_value-append acc [] t = refl
digits_value-append acc (c ∷ s) t = digits_value-append (acc * 16 + digit_value c) s t

digits_value-replicate :
    (n : ℕ) (s : Str) → digits_value 0 (replicate n b'0' ++ s) ≡ digits_value 0 s
unfolding digits_value digit_value
digits_value-replicate zero s = refl
digits_value-replicate (suc n) s = digits_value-replicate n s

digits_value-hex_digits : (fuel n : ℕ) → n < 16 ^ fuel → digits_value 0 (hex_digits fuel n) ≡ n
unfolding hex_digits digits_value
digits_value-hex_digits zero n h = omega arith
digits_value-hex_digits (suc fuel) n h = elim (Bool-cases (ltb n 16)) [
  | inl small ↦ rw small (omega (arith, digit_value-hex_digit n (ltb→lt n 16 small)))
  | inr large ↦
      rw (large, digits_value-append 0 (hex_digits fuel (n / 16)) (hex_digit (n % 16) ∷ []))
        (omega (
          arith,
          digits_value-hex_digits fuel (n / 16) (omega (arith, pow-suc 16 fuel)),
          digit_value-hex_digit (n % 16) (omega arith),
        ))
]

-- The digits after "0x" read back as the word.
pub put_hex-reads : (n width : ℕ) → n < 2 ^ 64 → digits_value 0 (drop 2 (put_hex n width)) ≡ n
unfolding put_hex
put_hex-reads n width h = rw digits_value-replicate (digits_value-hex_digits 16 n h)

-- What is written for a number: "0x", then its digits, which are at least as many as the width asks for,
-- and otherwise no more than the number needs.
pub record Reads (n width : ℕ) (text : Str) : Type 0 where
  pub digits : Str
  pub prefixed : text ≡ codes "0x" ++ digits
  pub value : digits_value 0 digits ≡ n
  pub wide : width ≤ length digits
  pub no_wider : (length digits ≤ width) ⊎ (length digits ≡ 1) ⊎ (16 ^ (length digits - 1) ≤ n)
