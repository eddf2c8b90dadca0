-- ===== src/Examples/Texts.antt =====
-- Examples for texts, paths and tables.
use sloader.Base.{
  ◌≡◌, ◌∷◌, subst, refl, false, none, some, List, [], ◌++◌, Str, codes, All, contains,
  if◌then◌else◌, str_eq, arith,
}
use sloader.Result.{ok}
use sloader.System.{System}
use sloader.Utils.Split.{find?, split_with}
use sloader.Utils.Split.Laws.{joined, split_with-pieces}
use sloader.Utils.Show.{show_relocation_type}
use sloader.Utils.Show.Laws.{read_relocation_type, show_relocation_type-reads}
use sloader.Library.{is_space, read_ldsoconf_dfs}
use sloader.Library.Includes.{words, patterns}
use sloader.Library.Config.{Nested, Returns, read_ldsoconf_dfs-Returns}
use mathlib.Core.Option.{some-injective}
use sloader.Main.{starts_with_dot, find_fullpath}
use sloader.Main.Path.{FoundIn, find_fullpath-FoundIn}
use sloader.Examples.{one_object}

split_with-pieces_example :
    (ret : List Str) × (rest : Str) × (split_with (codes "/bin:/usr/bin") (codes ":") ≡ ok ret)
    × (codes "/bin:/usr/bin" ≡ joined ret (codes ":") ++ rest)
    × All (λ p. find? p (codes ":") ≡ none) ret
    × (find? rest (codes ":") ≡ none)
split_with-pieces_example = split_with-pieces (codes "/bin:/usr/bin") (codes ":") (omega arith)

show_relocation_type-reads_example : read_relocation_type (show_relocation_type 7) ≡ 7
show_relocation_type-reads_example = show_relocation_type-reads 7 (omega arith)

-- A library of the directory "/lib", which is asked for after the runpath of the binary.
abbrev lib_only : System
lib_only = record one_object {
  is_directory = λ path. str_eq path (codes "/lib");
  exists = λ path. false;
}

-- A configuration file that includes those of a directory, of which there is one.
abbrev main_conf : Str
main_conf = codes "include /etc/ld.so.conf.d/*.conf\n"

abbrev one_conf : Str
one_conf = codes "# lib\n/opt/lib\n"

abbrev two_confs : System
two_confs = record one_object {
  read_file = λ path. some (if str_eq path (codes "/etc/ld.so.conf") then main_conf else one_conf);
  glob = λ pattern.
      if str_eq pattern (codes "/etc/ld.so.conf.d/*.conf")
      then codes "/etc/ld.so.conf.d/opt.conf" ∷ []
      else pattern ∷ [];
}

two_confs-Nested : Nested two_confs 2 (codes "/etc/ld.so.conf")
unfolding Nested patterns words is_space
two_confs-Nested text e =
    subst (λ (t : Str). All (λ p. All (Nested two_confs 1) (two_confs.glob p)) (patterns (words t)))
      (some-injective _ _ e) ((opt_conf-Nested, tt), tt)
  where
    opt_conf-Nested : Nested two_confs 1 (codes "/etc/ld.so.conf.d/opt.conf")
    opt_conf-Nested text2 e2 =
        subst
          (λ (t : Str). All (λ p. All (Nested two_confs 0) (two_confs.glob p)) (patterns (words t)))
          (some-injective _ _ e2) tt

read_ldsoconf_dfs-Returns_example :
    Returns (read_ldsoconf_dfs two_confs 2 [] (codes "/etc/ld.so.conf"))
read_ldsoconf_dfs-Returns_example =
    read_ldsoconf_dfs-Returns two_confs 2 [] (codes "/etc/ld.so.conf") two_confs-Nested

find_fullpath-FoundIn_example :
    (dirs : List Str) × (last : Str) × (fullpath : Str) × (codes "/bin:/usr/bin"
      ≡ joined dirs (codes ":") ++ last)
    × All (λ d. find? d (codes ":") ≡ none) dirs
    × (find? last (codes ":") ≡ none)
    × (find_fullpath one_object (codes "ls") ≡ ok fullpath)
    × FoundIn one_object (codes "ls") dirs fullpath
unfolding contains starts_with_dot
find_fullpath-FoundIn_example =
    find_fullpath-FoundIn one_object (codes "ls") (codes "/bin:/usr/bin") refl refl
