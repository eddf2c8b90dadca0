-- ===== src/Utils/Show/Laws.antt =====
-- A relocation type can be read back from the text that shows it.
use sloader.Base.{
  ℕ, ◌<◌, ◌^◌, ◌≡◌, ◌∙◌, refl, Bool, true, false, ◌&&◌, Option, none, some, [], ◌∷◌, arith, ◌==◌,
  if◌then◌else◌, Str, str_eq, drop, Bool-cases, Option-cases, inl, inr,
}
use sloader.Utils.Hex.{hex_string}
use sloader.Utils.Hex.Laws.{digits_value, put_hex-reads}
use sloader.Utils.Show.{Table, switch, relocation_types, show_relocation_type}

-- The case whose text it is.
case_of : Str → Table → Option ℕ
case_of text [] = none
case_of text ((case, t) ∷ rest) = if str_eq text t then some case else case_of text rest

-- What the shown text stands for: a name of the table, or digits after "0x".
pub read_relocation_type : Str → ℕ
read_relocation_type text = elim (case_of text relocation_types) [
  | some case ↦ case
  | none ↦ digits_value 0 (drop 2 text)
]

is_case : Option ℕ → ℕ → Bool
is_case none n = false
is_case (some c) n = c == n

is_case-eq : (o : Option ℕ) (n : ℕ) → is_case o n ≡ true → o ≡ some n
unfolding is_case
is_case-eq none n h = cc
is_case-eq (some c) n h = ground arith

-- Every text of `part` leads back to its case in the whole table.
reads_back : Table → Table → Bool
reads_back whole [] = true
reads_back whole ((case, text) ∷ rest) = is_case (case_of text whole) case && reads_back whole rest

reads_back-switch :
    (whole part : Table) (key : ℕ) (text : Str)
    → reads_back whole part ≡ true
    → switch key part ≡ some text
    → case_of text whole ≡ some key
unfolding reads_back is_case switch
reads_back-switch whole [] key text r h = cc
reads_back-switch whole ((case, t) ∷ rest) key text r h = elim (Bool-cases (key == case)) [
  | inl hit ↦
      let same : t ≡ text = ground arith in
      let back : is_case (case_of text whole) key ≡ true = rw (← same) (ground arith) in
      is_case-eq (case_of text whole) key back
  | inr miss ↦ reads_back-switch whole rest key text (ground arith) (ground arith)
]

relocation_types-reads_back : reads_back relocation_types relocation_types ≡ true
unfolding reads_back is_case case_of
relocation_types-reads_back = refl

-- No text of the table begins like a hexadecimal number.
hex-miss : (n width : ℕ) → case_of (hex_string 4 n (some width)) relocation_types ≡ none
unfolding case_of hex_string
hex-miss n width = refl

hex-value : (n width : ℕ) → n < 2 ^ 64 → digits_value 0 (drop 2 (hex_string 4 n (some width))) ≡ n
unfolding hex_string
hex-value n width h = put_hex-reads n width h

read_hit :
    (text : Str) (key : ℕ)
    → case_of text relocation_types ≡ some key
    → read_relocation_type text ≡ key
unfolding read_relocation_type
read_hit text key e = rw (e, read_relocation_type)

read_miss :
    (text : Str)
    → case_of text relocation_types ≡ none
    → read_relocation_type text ≡ digits_value 0 (drop 2 text)
unfolding read_relocation_type
read_miss text e = rw (e, read_relocation_type)

-- Different relocation types are shown differently: the text determines the type.
pub show_relocation_type-reads :
    (type : ℕ) → type < 2 ^ 32 → read_relocation_type (show_relocation_type type) ≡ type
unfolding show_relocation_type
show_relocation_type-reads type h = elim (Option-cases (switch type relocation_types)) [
  | inl e ↦
      rw (e, show_relocation_type)
        (read_miss (hex_string 4 type (some 4)) (hex-miss type 4) ∙ hex-value type 4 (omega arith))
  | inr (text, e) ↦
      rw (e, show_relocation_type)
        (read_hit text type (
          reads_back-switch relocation_types relocation_types type text relocation_types-reads_back
            e))
]
