-- ===== src/Execute/Stack/Push.antt =====
-- The initial stack is laid out as the System V ABI for x86-64 prescribes.
use mathlib.Core.List.{reverse, reverse-cons, reverse-append, reverse-reverse}
use sloader.Base.{
  ℕ, ◌+◌, ◌-◌, ◌*◌, ◌≤◌, ◌<◌, ◌^◌, ◌≡◌, ◌∙◌, sym, ap, subst, refl, inr, List, [], ◌∷◌, ◌++◌,
  append_assoc, append-nil, arith, length, length-reverse, replicate, All, All-append,
}
use sloader.Result.{ok}
use sloader.Memory.{Mem, read64, write64}
use sloader.Memory.Laws.{Outside, write64-Outside, read64-write64, read64-write64_ne}
use sloader.Execute.Stack.{build_stack, push_all}
use sloader.Execute.Stack.Layout.{values_first, built, build_stack-built}

-- `words` stand in memory from `a` upward.
abbrev pub Upward : Mem → ℕ → List ℕ → Type 0
Upward m a [] = Unit
Upward m a (w ∷ ws) = (read64 m a ≡ w) × Upward m (a + 8) ws

Upward-write :
    (m : Mem) (a b v : ℕ) (ws : List ℕ) → a + 8 ≤ b → Upward m b ws → Upward (write64 m a v) b ws
Upward-write m a b v [] h k = tt
Upward-write m a b v (w ∷ ws) h k =
    (read64-write64_ne m a b v (inr h) ∙ k.0, Upward-write m a (b + 8) v ws (omega (arith, h)) k.1)

pub push_all-Upward :
    (vs done : List ℕ) (rsp : ℕ) (m : Mem)
    → 8 * length vs ≤ rsp
    → All (λ (v : ℕ). v < 2 ^ 64) vs
    → Upward m rsp done
    → ((push_all vs rsp m).0 + 8 * length vs ≡ rsp)
      × Upward (push_all vs rsp m).1 (push_all vs rsp m).0 (reverse vs ++ done)
unfolding push_all
push_all-Upward [] done rsp m h small up = (omega arith, up)
push_all-Upward (v ∷ vs) done rsp m h small up =
    let back : rsp ≡ rsp - 8 + 8 = omega (arith, h) in
    let w : Mem = write64 m (rsp - 8) v in
    let r = push_all-Upward vs (v ∷ done) (rsp - 8) w (omega (arith, h)) small.1 (
      read64-write64 m (rsp - 8) v small.0,
      subst (λ (b : ℕ). Upward w b done) back
          (Upward-write m (rsp - 8) rsp v done (omega (arith, back)) up),
    ) in
    (
      omega (arith, r.0, h),
      subst (Upward (push_all vs (rsp - 8) w).1 (push_all vs (rsp - 8) w).0)
          (sym (append_assoc (reverse vs) (v ∷ []) done)
            ∙ ap (λ (xs : List ℕ). xs ++ done) (sym (reverse-cons v vs)))
          r.1,
    )

-- Pushing writes nothing but the words that it pushes.
push_all-Outside :
    (vs : List ℕ) (rsp : ℕ) (m : Mem) (x : ℕ)
    → 8 * length vs ≤ rsp
    → Outside (rsp - 8 * length vs) (8 * length vs) x
    → (push_all vs rsp m).1 x ≡ m x
unfolding push_all
push_all-Outside [] rsp m x h out = refl
push_all-Outside (v ∷ vs) rsp m x h out =
    push_all-Outside vs (rsp - 8) (write64 m (rsp - 8) v) x (omega (arith, h))
      (omega (arith, h, out))
    ∙ write64-Outside m (rsp - 8) v x (omega (arith, h, out))

-- The words above the final stack pointer: argc, argv, a null pointer, the environment, a null
-- pointer, the auxiliary vector with its AT_NULL, and padding.
unfoldable aux_words : List (ℕ × ℕ) → List ℕ
aux_words [] = []
aux_words ((t, v) ∷ rest) = t ∷ v ∷ aux_words rest

unfoldable pub initial_stack : List (ℕ × ℕ) → List ℕ → List ℕ → List ℕ
unfolding aux_words
initial_stack auxs envs args =
    length args
    ∷ (args ++ (0 ∷ (envs ++ (0 ∷ (aux_words (reverse auxs) ++ (0 ∷ 0 ∷ 0 ∷ 0 ∷ 0 ∷ 0 ∷ []))))))

aux_words-append : (xs ys : List (ℕ × ℕ)) → aux_words (xs ++ ys) ≡ aux_words xs ++ aux_words ys
unfolding aux_words
aux_words-append [] ys = refl
aux_words-append ((t, v) ∷ xs) ys = ap (λ (r : List ℕ). t ∷ v ∷ r) (aux_words-append xs ys)

reverse-values_first :
    (auxs : List (ℕ × ℕ)) → reverse (values_first auxs) ≡ aux_words (reverse auxs)
unfolding values_first aux_words
reverse-values_first [] = refl
reverse-values_first ((t, v) ∷ rest) =
    (reverse-cons v (t ∷ values_first rest)
      ∙ ap (λ (r : List ℕ). r ++ v ∷ []) (reverse-cons t (values_first rest)))
    ∙ (append_assoc (reverse (values_first rest)) (t ∷ []) (v ∷ [])
        ∙ (ap (λ (r : List ℕ). r ++ t ∷ v ∷ []) (reverse-values_first rest)
            ∙ (sym (aux_words-append (reverse rest) ((t, v) ∷ []))
                ∙ ap aux_words (sym (reverse-cons (t, v) rest)))))

reverse-snoc :
    (xs : List ℕ) (x : ℕ) (ys : List ℕ) → reverse (xs ++ x ∷ []) ++ ys ≡ x ∷ (reverse xs ++ ys)
reverse-snoc xs x ys = ap (λ (r : List ℕ). r ++ ys) (reverse-append xs (x ∷ []))

reverse-back : (xs ys zs : List ℕ) → reverse (xs ++ reverse ys) ++ zs ≡ ys ++ (reverse xs ++ zs)
reverse-back xs ys zs =
    ap (λ (r : List ℕ). r ++ zs)
      (reverse-append xs (reverse ys) ∙ ap (λ (r : List ℕ). r ++ reverse xs) (reverse-reverse ys))
    ∙ append_assoc ys (reverse xs) zs

-- The array without its last word, its arguments, …
module _ (auxs : List (ℕ × ℕ)) (envs args : List ℕ) where
  before_envs : List ℕ
  before_envs = (([] ++ replicate 4 0) ++ replicate 2 0) ++ values_first auxs

  before_args : List ℕ
  unfolding before_envs
  before_args = (before_envs ++ replicate 1 0) ++ reverse envs

  reverse-built : reverse (built auxs envs args) ++ [] ≡ initial_stack auxs envs args
  unfolding built initial_stack before_envs before_args
  reverse-built =
      reverse-snoc ((before_args ++ replicate 1 0) ++ reverse args) (length args) []
      ∙ ap (◌∷◌ (length args)) (
          reverse-back (before_args ++ replicate 1 0) args []
          ∙ ap (◌++◌ args) (
              reverse-snoc before_args 0 []
              ∙ ap (◌∷◌ 0) (
                  reverse-back (before_envs ++ replicate 1 0) envs []
                  ∙ ap (◌++◌ envs) (reverse-snoc before_envs 0 [] ∙ ap (◌∷◌ 0) last))))
    where
      last : reverse before_envs ++ [] ≡ aux_words (reverse auxs) ++ 0 ∷ 0 ∷ 0 ∷ 0 ∷ 0 ∷ 0 ∷ []
      last =
          append-nil (reverse before_envs)
          ∙ (reverse-append (([] ++ replicate 4 0) ++ replicate 2 0) (values_first auxs)
              ∙ ap (λ (r : List ℕ). r ++ 0 ∷ 0 ∷ 0 ∷ 0 ∷ 0 ∷ 0 ∷ []) (reverse-values_first auxs))

-- What ExecuteCore makes of the memory `before`: the stack pointer is `words` words lower, the words
-- are there, and every other byte is as before.
pub record InitialStack (words : List ℕ) (rsp : ℕ) (before : Mem) (final : ℕ × Mem) : Type 0 where
  pub room : final.0 + 8 * length words ≡ rsp
  pub words_there : Upward final.1 final.0 words
  pub elsewhere : (x : ℕ) → Outside final.0 (8 * length words) x → final.1 x ≡ before x

All-reverse {ℓ} : (P : ℕ → Type ℓ) (xs : List ℕ) → All P xs → All P (reverse xs)
All-reverse P [] h = tt
All-reverse P (x ∷ xs) h =
    subst (All P) (sym (reverse-cons x xs))
      (All-append P (reverse xs) (x ∷ []) (All-reverse P xs h.1) (h.0, tt))

reverse-initial_stack :
    (auxs : List (ℕ × ℕ)) (envs args : List ℕ)
    → reverse (initial_stack auxs envs args) ≡ built auxs envs args
reverse-initial_stack auxs envs args =
    ap reverse (sym (reverse-built auxs envs args) ∙ append-nil (reverse (built auxs envs args)))
    ∙ reverse-reverse (built auxs envs args)

-- If the stack has room and the values are words, the array is built without a failing check, and after
-- it is pushed the words at the stack pointer are argc, the arguments, a null pointer, the environment,
-- a null pointer, the pairs of the auxiliary vector from the last to the first, AT_NULL and padding;
-- no byte outside these words is changed.
pub build_stack-InitialStack :
    (auxs : List (ℕ × ℕ)) (envs args : List ℕ) (rsp : ℕ) (m : Mem)
    → 8 * length (initial_stack auxs envs args) ≤ rsp
    → All (λ (v : ℕ). v < 2 ^ 64) (initial_stack auxs envs args)
    → (words : List ℕ) × (build_stack auxs envs args ≡ ok words)
      × InitialStack (initial_stack auxs envs args) rsp m (push_all words rsp m)
build_stack-InitialStack auxs envs args rsp m room small =
    let back = reverse-initial_stack auxs envs args in
    let size : length (built auxs envs args) ≡ length (initial_stack auxs envs args) =
      ap length (sym back) ∙ length-reverse (initial_stack auxs envs args) in
    let r =
      push_all-Upward (built auxs envs args) [] rsp m (omega (arith, room, size))
        (subst (All (λ (v : ℕ). v < 2 ^ 64)) back (All-reverse _ _ small)) tt in
    (
      built auxs envs args,
      build_stack-built auxs envs args,
      record {
        room = omega (arith, r.0, size);
        words_there = subst (Upward _ _) (reverse-built auxs envs args) r.1;
        elsewhere = λ x out.
            push_all-Outside (built auxs envs args) rsp m x (omega (arith, room, size))
              (omega (arith, out, size, r.0));
      },
    )
