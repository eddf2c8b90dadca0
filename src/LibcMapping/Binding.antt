-- ===== src/LibcMapping/Binding.antt =====
-- Where the names of `sloader_libc_map` lead.
use sloader.Base.{
  ◌≡◌, ◌∙◌, sym, ap, refl, Bool, true, false, not, some, List, [], ◌∷◌, Str, codes, elem, String,
}
use sloader.LibcMapping.{Operand, Entry}
use sloader.LibcMapping.Entries.{all_pass, PartsPass, found-passes}
use sloader.LibcMapping.Table1.{entries1}
use sloader.LibcMapping.Table2.{entries2}
use sloader.LibcMapping.Table3.{entries3}
use sloader.LibcMapping.Table4.{entries4}
use sloader.LibcMapping.Table5.{entries5}
use sloader.LibcMapping.Table6.{entries6}
use sloader.LibcMapping.Table7.{entries7}
use sloader.LibcMapping.Table8.{entries8}
use sloader.LibcMapping.Table.{Place, symbol, variable, lookup, place, sloader_libc_map}

abbrev pub is_variable : Place → Bool
is_variable (symbol x) = false
is_variable (variable x) = true

-- The names whose entry takes the address of a pointer variable.
abbrev pub bound_to_variables : List Str
bound_to_variables =
    codes "__rawmemchr"
    ∷ codes "modf"
    ∷ codes "rindex"
    ∷ codes "strcasestr"
    ∷ codes "wcspbrk"
    ∷ codes "wcsstr"
    ∷ codes "wmemchr"
    ∷ []

abbrev same : Bool → Bool → Bool
same true b = b
same false b = not b

same-eq : (a b : Bool) → same a b ≡ true → a ≡ b
same-eq true b h = sym h
same-eq false true h = cc
same-eq false false h = refl

unfoldable bound_well : Entry → Bool
unfolding place
bound_well (key, op) = same (is_variable (place op)) (elem (codes key) bound_to_variables)

entries1-bound : all_pass bound_well entries1 ≡ true
unfolding all_pass bound_well entries1
entries1-bound = refl

entries2-bound : all_pass bound_well entries2 ≡ true
unfolding all_pass bound_well entries2
entries2-bound = refl

entries3-bound : all_pass bound_well entries3 ≡ true
unfolding all_pass bound_well entries3
entries3-bound = refl

entries4-bound : all_pass bound_well entries4 ≡ true
unfolding all_pass bound_well entries4
entries4-bound = refl

entries5-bound : all_pass bound_well entries5 ≡ true
unfolding all_pass bound_well entries5
entries5-bound = refl

entries6-bound : all_pass bound_well entries6 ≡ true
unfolding all_pass bound_well entries6
entries6-bound = refl

entries7-bound : all_pass bound_well entries7 ≡ true
unfolding all_pass bound_well entries7
entries7-bound = refl

entries8-bound : all_pass bound_well entries8 ≡ true
unfolding all_pass bound_well entries8
entries8-bound = refl

parts-bound : PartsPass bound_well
parts-bound = record {
  part1 = entries1-bound;
  part2 = entries2-bound;
  part3 = entries3-bound;
  part4 = entries4-bound;
  part5 = entries5-bound;
  part6 = entries6-bound;
  part7 = entries7-bound;
  part8 = entries8-bound;
}

bound_well-eq :
    (key : String) (op : Operand)
    → bound_well (key, op) ≡ true
    → is_variable (place op) ≡ elem (codes key) bound_to_variables
unfolding bound_well
bound_well-eq key op h = same-eq (is_variable (place op)) (elem (codes key) bound_to_variables) h

-- A name of `sloader_libc_map` is bound to a variable that holds a function's address, and not to the
-- function or object itself, exactly if it is one of the seven names `bound_to_variables`.
pub sloader_libc_map-variables :
    (name : Str) (op : Operand)
    → lookup sloader_libc_map name ≡ some op
    → is_variable (place op) ≡ elem name bound_to_variables
sloader_libc_map-variables name op found =
    let (key, e, passed) = found-passes bound_well name op parts-bound found in
    bound_well-eq key op passed ∙ ap (λ (n : Str). elem n bound_to_variables) e
