-- ===== src/Execute/Stack.antt =====
-- DynLoader::Execute, second part: the auxiliary vector, the initial stack and ExecuteCore.
pub mod Layout
pub mod Push
use mathlib.Core.List.{reverse}
use sloader.Base.{
  ℕ, zero, suc, ◌+◌, ◌-◌, ◌*◌, not, List, [], ◌∷◌, ◌++◌, ◌==◌, if◌then◌else◌, length, set,
  replicate,
}
use sloader.Result.{Result, ok, check, ◌>>=◌, ◌>>◌}
use sloader.Memory.{Mem, write64}
use sloader.System.{System}

-- AT_IGNORE, AT_PHENT, … in the order of the code
abbrev pub aux_types : List ℕ
aux_types =
    1 ∷ 4 ∷ 6 ∷ 8 ∷ 10 ∷ 11 ∷ 12 ∷ 13 ∷ 14 ∷ 17 ∷ 15 ∷ 16 ∷ 18 ∷ 19 ∷ 20 ∷ 21 ∷ 22 ∷ 23 ∷ 24 ∷ 25
    ∷ 26 ∷ 32 ∷ 33 ∷ 34 ∷ 35 ∷ 36 ∷ 37 ∷ 40 ∷ 41 ∷ 42 ∷ 43 ∷ 44 ∷ 45 ∷ 46 ∷ 47 ∷ 51 ∷ []

-- The entries whose value is not 0, as pairs of type and value.
unfoldable pub aux_values : System → List ℕ → List (ℕ × ℕ)
aux_values sys [] = []
aux_values sys (t ∷ rest) =
    let v : ℕ = sys.getauxval t in
    if not (v == 0) then (t, v) ∷ aux_values sys rest else aux_values sys rest

-- The array `stack` and `stack_index`.
pub record Builder : Type 0 where
  pub stack : List ℕ
  pub stack_index : ℕ

-- `*(stack + stack_index) = v; stack_index++`
unfoldable pub put : ℕ → Builder → Builder
put v s = record { stack = set s.stack s.stack_index v; stack_index = s.stack_index + 1 }

unfoldable pub put_all : List ℕ → Builder → Builder
unfolding put
put_all [] s = s
put_all (v ∷ vs) s = put_all vs (put v s)

-- `stack_index += n`: the array is zero there
unfoldable pub skip : ℕ → Builder → Builder
skip n s = record s { stack_index = s.stack_index + n }

unfoldable pub put_auxs : List (ℕ × ℕ) → Builder → Builder
unfolding put
put_auxs [] s = s
put_auxs ((t, v) ∷ rest) s = put_auxs rest (put t (put v s))

-- The array that ExecuteCore pushes. `envs` and `args` are the addresses of the strings.
unfoldable pub build_stack : List (ℕ × ℕ) → List ℕ → List ℕ → Result (List ℕ)
unfolding put put_all skip put_auxs
build_stack auxs envs args = do
  let stack_num = 4 + 2 + 2 * length auxs + 1 + length envs + 2 + length args
  let s0 : Builder = record { stack = replicate stack_num 0; stack_index = 0 }
  let s1 = put_auxs auxs (skip 2 (skip 4 s0))
  let s2 = put_all (reverse envs) (skip 1 s1)
  let s3 = put_all (reverse args) (skip 1 s2)
  let s4 = put (length args) s3
  check (s4.stack_index == stack_num)
  ok s4.stack

-- `pushq` of each word: the stack pointer and the memory
unfoldable pub push_all : List ℕ → ℕ → Mem → ℕ × Mem
push_all [] rsp m = (rsp, m)
push_all (v ∷ vs) rsp m = push_all vs (rsp - 8) (write64 m (rsp - 8) v)
