-- ===== src/LibcMapping/Entries.antt =====
-- A test that every entry of `sloader_libc_map` passes, and what it says of a name that is found.
use sloader.Base.{
  ◌≡◌, subst, refl, Bool, true, false, Bool-cases, inl, inr, ◌&&◌, some, List, [], ◌∷◌, ◌++◌, Str,
  codes, str_eq, str_eq→eq, String,
}
use mathlib.Core.Option.{some-injective}
use sloader.LibcMapping.{Operand, Entry}
use sloader.LibcMapping.Table1.{entries1}
use sloader.LibcMapping.Table2.{entries2}
use sloader.LibcMapping.Table3.{entries3}
use sloader.LibcMapping.Table4.{entries4}
use sloader.LibcMapping.Table5.{entries5}
use sloader.LibcMapping.Table6.{entries6}
use sloader.LibcMapping.Table7.{entries7}
use sloader.LibcMapping.Table8.{entries8}
use sloader.LibcMapping.Table.{lookup, sloader_libc_map}

unfoldable pub all_pass : (Entry → Bool) → List Entry → Bool
all_pass test [] = true
all_pass test (e ∷ rest) = test e && all_pass test rest

both : (a b : Bool) → (a && b) ≡ true → (a ≡ true) × (b ≡ true)
both true true h = (refl, refl)
both true false h = cc
both false b h = cc

module _ (test : Entry → Bool) where
  all_pass-append :
      (xs ys : List Entry)
      → all_pass test xs ≡ true
      → all_pass test ys ≡ true
      → all_pass test (xs ++ ys) ≡ true
  unfolding all_pass
  all_pass-append [] ys h k = k
  all_pass-append (e ∷ xs) ys h k =
      let (a, b) = both (test e) (all_pass test xs) h in rw a (all_pass-append xs ys b k)

  -- The eight parts of the map.
  pub record PartsPass : Type 0 where
    pub part1 : all_pass test entries1 ≡ true
    pub part2 : all_pass test entries2 ≡ true
    pub part3 : all_pass test entries3 ≡ true
    pub part4 : all_pass test entries4 ≡ true
    pub part5 : all_pass test entries5 ≡ true
    pub part6 : all_pass test entries6 ≡ true
    pub part7 : all_pass test entries7 ≡ true
    pub part8 : all_pass test entries8 ≡ true

  map-pass : PartsPass → all_pass test sloader_libc_map ≡ true
  unfolding sloader_libc_map
  map-pass p = all_pass-append entries1 _ p.part1 (
      all_pass-append entries2 _ p.part2 (
        all_pass-append entries3 _ p.part3 (
          all_pass-append entries4 _ p.part4 (
            all_pass-append entries5 _ p.part5 (
              all_pass-append entries6 _ p.part6
                (all_pass-append entries7 entries8 p.part7 p.part8))))))

  lookup-passes :
      (entries : List Entry) (name : Str) (op : Operand)
      → all_pass test entries ≡ true
      → lookup entries name ≡ some op
      → (key : String) × (codes key ≡ name) × (test (key, op) ≡ true)
  unfolding lookup all_pass
  lookup-passes [] name op h found = cc
  lookup-passes ((key, o) ∷ rest) name op h found =
      let (a, b) = both (test (key, o)) (all_pass test rest) h in
      elim (Bool-cases (str_eq (codes key) name)) [
        | inl e ↦ (
          key,
          str_eq→eq (codes key) name e,
          subst (λ (o' : Operand). test (key, o') ≡ true)
              (some-injective _ _ (rw (e, lookup) at found)) a,
        )
        | inr e ↦ lookup-passes rest name op b (rw (e, lookup) at found)
      ]

  -- An entry that the lookup finds passes the test that all entries pass.
  pub found-passes :
      (name : Str) (op : Operand)
      → PartsPass
      → lookup sloader_libc_map name ≡ some op
      → (key : String) × (codes key ≡ name) × (test (key, op) ≡ true)
  found-passes name op p found = lookup-passes sloader_libc_map name op (map-pass p) found
