-- ===== src/Execute/Stack/Layout.antt =====
-- The array that Execute fills before ExecuteCore.
use mathlib.Core.List.{reverse}
use sloader.Base.{
  ℕ, zero, suc, ◌+◌, ◌*◌, ◌≡◌, ◌∙◌, sym, ap, subst, refl, Bool, true, List, [], ◌∷◌, ◌++◌,
  append_assoc, append-nil, arith, ◌==◌, ==_refl, length, length-append, length-reverse, set,
  replicate,
}
use sloader.Result.{ok, check, ◌>>◌}
use sloader.Execute.Stack.{Builder, put, put_all, skip, put_auxs, build_stack}

-- The words written so far, and how many zero words are left.
record Filled (s : Builder) (words : List ℕ) (left : ℕ) : Type 0 where
  stack : s.stack ≡ words ++ replicate left 0
  index : s.stack_index ≡ length words

set-append : (xs ys : List ℕ) (y v : ℕ) → set (xs ++ y ∷ ys) (length xs) v ≡ xs ++ v ∷ ys
set-append [] ys y v = refl
set-append (x ∷ xs) ys y v = ap (◌∷◌ x) (set-append xs ys y v)

put-Filled :
    (v : ℕ) (s : Builder) (words : List ℕ) (left : ℕ)
    → Filled s words (suc left)
    → Filled (put v s) (words ++ (v ∷ [])) left
unfolding put
put-Filled v s words left f = record {
  stack =
      ap (λ (xs : List ℕ). set xs s.stack_index v) f.stack
      ∙ (ap (λ (i : ℕ). set (words ++ 0 ∷ replicate left 0) i v) f.index
          ∙ (set-append words (replicate left 0) 0 v
              ∙ sym (append_assoc words (v ∷ []) (replicate left 0))));
  index = omega (arith, f.index, length-append words (v ∷ []));
}

suc_add : (n left : ℕ) → suc (n + left) ≡ suc n + left
suc_add n left = omega arith

replicate-add : (n left : ℕ) → replicate {A = ℕ} (n + left) 0 ≡ replicate n 0 ++ replicate left 0
replicate-add zero left = ap (λ (k : ℕ). replicate k 0) (omega arith)
replicate-add (suc n) left =
    ap (λ (k : ℕ). replicate {A = ℕ} k 0) (sym (suc_add n left)) ∙ ap (◌∷◌ 0) (replicate-add n left)

length-replicate : (n : ℕ) → length (replicate {A = ℕ} n 0) ≡ n
length-replicate zero = refl
length-replicate (suc n) = ap suc (length-replicate n)

skip-Filled :
    (n : ℕ) (s : Builder) (words : List ℕ) (left : ℕ)
    → Filled s words (n + left)
    → Filled (skip n s) (words ++ replicate n 0) left
unfolding skip
skip-Filled n s words left f = record {
  stack =
      f.stack
      ∙ (ap (◌++◌ words) (replicate-add n left)
          ∙ sym (append_assoc words (replicate n 0) (replicate left 0)));
  index = omega (arith, f.index, length-append words (replicate n 0), length-replicate n);
}

put_all-Filled :
    (vs : List ℕ) (s : Builder) (words : List ℕ) (left : ℕ)
    → Filled s words (length vs + left)
    → Filled (put_all vs s) (words ++ vs) left
unfolding put_all
put_all-Filled [] s words left f = record {
  stack =
      f.stack
      ∙ (ap (λ (k : ℕ). words ++ replicate k 0) (omega arith)
          ∙ ap (λ (xs : List ℕ). xs ++ replicate left 0) (sym (append-nil words)));
  index = f.index ∙ ap length (sym (append-nil words));
}
put_all-Filled (v ∷ vs) s words left f =
    subst (λ (xs : List ℕ). Filled (put_all vs (put v s)) xs left) (append_assoc words (v ∷ []) vs)
      (put_all-Filled vs (put v s) (words ++ (v ∷ [])) left
        (put-Filled v s words (length vs + left) (subst (Filled s words) (omega arith) f)))

-- The pairs in the order in which the array holds them.
unfoldable pub values_first : List (ℕ × ℕ) → List ℕ
values_first [] = []
values_first ((t, v) ∷ rest) = v ∷ t ∷ values_first rest

put_auxs-eq : (auxs : List (ℕ × ℕ)) (s : Builder) → put_auxs auxs s ≡ put_all (values_first auxs) s
unfolding put_auxs put_all values_first
put_auxs-eq [] s = refl
put_auxs-eq ((t, v) ∷ rest) s = put_auxs-eq rest (put t (put v s))

put_auxs-Filled :
    (auxs : List (ℕ × ℕ)) (s : Builder) (words : List ℕ) (left : ℕ)
    → Filled s words (length (values_first auxs) + left)
    → Filled (put_auxs auxs s) (words ++ values_first auxs) left
put_auxs-Filled auxs s words left f =
    subst (λ (s' : Builder). Filled s' (words ++ values_first auxs) left) (sym (put_auxs-eq auxs s))
      (put_all-Filled (values_first auxs) s words left f)

length-values_first : (auxs : List (ℕ × ℕ)) → length (values_first auxs) ≡ 2 * length auxs
unfolding values_first
length-values_first [] = refl
length-values_first ((t, v) ∷ rest) = omega (arith, length-values_first rest)

-- The array when the last word is written.
unfoldable pub built : List (ℕ × ℕ) → List ℕ → List ℕ → List ℕ
built auxs envs args =
    ((((((([] ++ replicate 4 0) ++ replicate 2 0) ++ values_first auxs) ++ replicate 1 0)
          ++ reverse envs)
        ++ replicate 1 0)
      ++ reverse args)
    ++ (length args ∷ [])

length-parts :
    (auxs : List (ℕ × ℕ)) (envs args : List ℕ)
    → 4 + 2 + 2 * length auxs + 1 + length envs + 2 + length args
      ≡ 4
        + (2
            + (length (values_first auxs)
                + (1 + (length (reverse envs) + (1 + (length (reverse args) + 1))))))
length-parts auxs envs args =
    omega (arith, length-values_first auxs, length-reverse envs, length-reverse args)

replicate_length :
    (n left : ℕ) → n ≡ left → Filled (record { stack = replicate n 0; stack_index = 0 }) [] left
replicate_length n left e = record { stack = ap (λ (k : ℕ). replicate k 0) e; index = refl }

built-Filled :
    (auxs : List (ℕ × ℕ)) (envs args : List ℕ) (s : Builder)
    → Filled s [] (
        4
        + (2
            + (length (values_first auxs)
                + (1 + (length (reverse envs) + (1 + (length (reverse args) + 1)))))))
    → Filled
        (put (length args) (
          put_all
            (reverse args)
            (skip 1 (put_all (reverse envs) (skip 1 (put_auxs auxs (skip 2 (skip 4 s))))))))
        (built auxs envs args)
        0
unfolding built
built-Filled auxs envs args s f =
    let s1 = skip 2 (skip 4 s) in
    let f1 = skip-Filled 2 (skip 4 s) _ _ (skip-Filled 4 s _ _ f) in
    let f2 = put_auxs-Filled auxs s1 _ _ f1 in
    let f3 = put_all-Filled (reverse envs) _ _ _ (skip-Filled 1 _ _ _ f2) in
    put-Filled (length args) _ _ 0 (put_all-Filled (reverse args) _ _ 1 (skip-Filled 1 _ _ _ f3))

length-built :
    (auxs : List (ℕ × ℕ)) (envs args : List ℕ)
    → length (built auxs envs args) ≡ 4 + 2 + 2 * length auxs + 1 + length envs + 2 + length args
unfolding built
length-built auxs envs args = omega (
  arith,
  length-parts auxs envs args,
  length-append
      (((((([] ++ replicate 4 0) ++ replicate 2 0) ++ values_first auxs) ++ replicate 1 0)
          ++ reverse envs)
        ++ replicate 1 0
        ++ reverse args)
      (length args ∷ []),
  length-append
      (((((([] ++ replicate 4 0) ++ replicate 2 0) ++ values_first auxs) ++ replicate 1 0)
          ++ reverse envs)
        ++ replicate 1 0)
      (reverse args),
  length-append
      ((((([] ++ replicate 4 0) ++ replicate 2 0) ++ values_first auxs) ++ replicate 1 0)
        ++ reverse envs)
      (replicate 1 0),
  length-append (((([] ++ replicate 4 0) ++ replicate 2 0) ++ values_first auxs) ++ replicate 1 0)
      (reverse envs),
  length-append ((([] ++ replicate 4 0) ++ replicate 2 0) ++ values_first auxs) (replicate 1 0),
  length-append (([] ++ replicate 4 0) ++ replicate 2 0) (values_first auxs),
)

==_eq : (m n : ℕ) → m ≡ n → (m == n) ≡ true
==_eq m n e = subst (λ (k : ℕ). (m == k) ≡ true) e (==_refl m)

passed {ℓ} : {A : Type ℓ} {c : Bool} → c ≡ true → (a : A) → (check c >> ok a) ≡ ok a
passed h a = ap (λ (c : Bool). check c >> ok a) h

-- CHECK_EQ(stack_index, stack_num) never fails.
pub build_stack-built :
    (auxs : List (ℕ × ℕ)) (envs args : List ℕ)
    → build_stack auxs envs args ≡ ok (built auxs envs args)
unfolding build_stack
build_stack-built auxs envs args =
    let f = built-Filled auxs envs args _ (replicate_length _ _ (length-parts auxs envs args)) in
    passed (==_eq _ _ (f.index ∙ length-built auxs envs args)) _
    ∙ ap ok (f.stack ∙ append-nil (built auxs envs args))
