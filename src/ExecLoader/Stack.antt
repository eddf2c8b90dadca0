-- ===== src/ExecLoader/Stack.antt =====
-- The stack of ExecLoader::Execute and the one of DynLoader::Execute.
use mathlib.Core.List.{reverse, reverse-reverse}
use sloader.Base.{
  ℕ, ◌+◌, ◌*◌, ◌≡◌, ◌∙◌, ap, sym, ◌==◌, List, [], ◌∷◌, length, length-reverse, replicate, arith,
}
use sloader.Result.{Result, ok, check, ◌>>◌}
use sloader.Execute.Stack.{Builder, put, put_all, skip, put_auxs, build_stack}
use sloader.ExecLoader.{exec_stack}

-- The two with the number of words and the order of the environment left open.
unfoldable filled : List (ℕ × ℕ) → ℕ → ℕ → List ℕ → Result (List ℕ)
unfolding put put_all skip put_auxs
filled auxs filename stack_num envs = do
  let s0 : Builder = record { stack = replicate stack_num 0; stack_index = 0 }
  let s1 = put_auxs auxs (skip 2 (skip 4 s0))
  let s2 = put_all envs (skip 1 s1)
  let s3 = put filename (skip 1 s2)
  let s4 = put 1 s3
  check (s4.stack_index == stack_num)
  ok s4.stack

-- The array of ExecLoader::Execute is that of DynLoader::Execute for one argument and the environment
-- in the opposite order.
pub exec_stack-reversed :
    (auxs : List (ℕ × ℕ)) (envs : List ℕ) (filename : ℕ)
    → exec_stack auxs envs filename ≡ build_stack auxs (reverse envs) (filename ∷ [])
unfolding exec_stack build_stack put_all filled
exec_stack-reversed auxs envs filename =
    let same : 4 + 2 + 2 * length auxs + 1 + length envs + 3
        ≡ 4 + 2 + 2 * length auxs + 1 + length (reverse envs) + 2 + 1 =
      omega (arith, length-reverse envs) in
    ap (λ (n : ℕ). filled auxs filename n envs) same
    ∙ ap (filled auxs filename (4 + 2 + 2 * length auxs + 1 + length (reverse envs) + 2 + 1))
        (sym (reverse-reverse envs))
