-- ===== src/Utils/Split.antt =====
-- SplitWith of utils.cc.
pub mod Laws
use sloader.Base.{
  ℕ, zero, suc, ◌+◌, Bool, Option, none, some, List, [], ◌∷◌, ◌++◌, length, drop, Str, starts_with,
  if◌then◌else◌, map,
}
use mathlib.Core.Option
use sloader.Result.{Result, ok, err, Loop, out_of_fuel, ◌>>=◌}

-- `str.find(delimiter)`: the position of the first occurrence, `none` for `npos`
unfoldable pub find? : Str → Str → Option ℕ
unfolding starts_with
find? [] d = if starts_with [] d then some 0 else none
find? (c ∷ s) d = if starts_with (c ∷ s) d then some 0 else Option.map suc (find? s d)

-- `str.substr(0, n)`
abbrev pub take : ℕ → Str → Str
take zero s = []
take (suc n) [] = []
take (suc n) (c ∷ s) = c ∷ take n s

-- The `while` loop. What follows the last delimiter stays in `str` and is not returned.
unfoldable pub split_loop : ℕ → Str → Str → Result (List Str)
split_loop zero s d = err (out_of_fuel Loop.split_loop)
split_loop (suc fuel) s d = elim (find? s d) [
  | none ↦ ok []
  | some pos ↦ do ret ← split_loop fuel (drop (pos + length d) s) d; ok (take pos s ∷ ret)
]

-- Each round removes a delimiter, so that one round more than there are characters is enough.
unfoldable pub split_with : Str → Str → Result (List Str)
unfolding split_loop find?
split_with s d = split_loop (length s + 1) s d
