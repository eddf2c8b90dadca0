-- ===== src/LibcMapping/Table.antt =====
-- `sloader_libc_map` of libc_mapping.cc as a whole, its lookup, and where a binding leads.
use sloader.Base.{
  ℕ, Option, none, some, List, [], ◌∷◌, ◌++◌, String, Str, codes, str_eq, if◌then◌else◌,
}
use mathlib.Core.Option
use sloader.LibcMapping.{Operand, address_of, value_of, Entry}
use sloader.LibcMapping.Table1.{entries1}
use sloader.LibcMapping.Table2.{entries2}
use sloader.LibcMapping.Table3.{entries3}
use sloader.LibcMapping.Table4.{entries4}
use sloader.LibcMapping.Table5.{entries5}
use sloader.LibcMapping.Table6.{entries6}
use sloader.LibcMapping.Table7.{entries7}
use sloader.LibcMapping.Table8.{entries8}

-- The variables that hold a pointer to a function, and the function.
unfoldable pub function_pointers : List (String × String)
function_pointers =
    ("strchr_c", "strchr")
    ∷ ("strrchr_c", "strrchr")
    ∷ ("rawmemchr_c", "rawmemchr")
    ∷ ("wmemchr_c", "wmemchr")
    ∷ ("memchr_c", "memchr")
    ∷ ("strstr_c", "strstr")
    ∷ ("strpbrk_c", "strpbrk")
    ∷ ("frexp_c", "frexp")
    ∷ ("ldexp_c", "ldexp")
    ∷ ("strchrnul_c", "strchrnul")
    ∷ ("strcasestr_c", "strcasestr")
    ∷ ("modf_c", "modf")
    ∷ ("rindex_c", "rindex")
    ∷ ("wcsstr_c", "wcsstr")
    ∷ ("wcspbrk_c", "wcspbrk")
    ∷ []

-- Where an address leads: to the function or object that the source names so, whichever symbol of libc
-- the headers give that name, or to a pointer variable.
pub data Place : Type 0 where
  symbol : String → Place
  variable : String → Place

unfoldable pub lookup {ℓ} : {A : Type ℓ} → List (String × A) → Str → Option A
lookup [] name = none
lookup ((key, a) ∷ rest) name =
    let later = lookup rest name in if str_eq (codes key) name then some a else later

unfoldable pub place : Operand → Place
unfolding function_pointers lookup
place (address_of x) = elim (lookup function_pointers (codes x)) [
  | none ↦ symbol x
  | some f ↦ variable x
]
place (value_of x) = elim (lookup function_pointers (codes x)) [
  | none ↦ symbol x
  | some f ↦ symbol f
]

unfoldable pub sloader_libc_map : List Entry
unfolding entries1 entries2 entries3 entries4 entries5 entries6 entries7 entries8
sloader_libc_map =
    entries1
    ++ (entries2 ++ (entries3 ++ (entries4 ++ (entries5 ++ (entries6 ++ (entries7 ++ entries8))))))

-- `sloader_libc_map` as the loader sees it, when `address` gives where things stand. The first entry
-- of a name is the one that a `std::map` keeps.
unfoldable pub libc_map : (Place → ℕ) → Str → Option ℕ
unfolding lookup sloader_libc_map place
libc_map address name = Option.map (λ op. address (place op)) (lookup sloader_libc_map name)

-- `sloader_libc_tls_variables`
unfoldable pub libc_tls_variables : (String → ℕ) → Str → Option ℕ
unfolding lookup
libc_tls_variables address name =
    Option.map address
      (lookup (("errno", "errno") ∷ ("__h_errno", "h_errno") ∷ ("__resp", "_res") ∷ []) name)
