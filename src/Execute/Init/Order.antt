-- ===== src/Execute/Init/Order.antt =====
-- The order in which Execute calls the initialisers.
use mathlib.Core.List.{reverse, reverse-cons}
use sloader.Base.{
  ℕ, zero, suc, ◌+◌, ◌*◌, ◌/◌, ◌%◌, ◌<◌, ◌≡◌, ◌∙◌, sym, ap, subst, refl, inl, inr, List, [], ◌∷◌,
  ◌++◌, true, ◌==◌, ==_iff, Bool-cases, if◌then◌else◌, All, arith,
}
use sloader.Base.Words.{add64}
use sloader.Result.{Result, ok, ◌>>=◌, >>=-ok, >>=-split}
use sloader.Memory.{Mem, read64}
use sloader.Binary.{ElfBinary}
use sloader.Execute.Init.{
  Process, call, call_array, call_init, init_binary, init_each, init_binaries,
}

-- The entries of an array of `n` words at `a`, up to the first null one.
unfoldable array_calls : Mem → ℕ → ℕ → List ℕ
array_calls m zero a = []
array_calls m (suc n) a =
    let rest = array_calls m n (a + 8) in if read64 m a == 0 then [] else read64 m a ∷ rest

unfoldable first_call : ElfBinary → List ℕ
first_call b = if b.init == 0 then [] else add64 b.init b.base_addr ∷ []

-- What one binary asks for: DT_INIT, then its init array.
unfoldable pub initialisers : Mem → ElfBinary → List ℕ
unfolding first_call array_calls
initialisers m b =
    first_call b ++ array_calls m (b.init_arraysz / 8) (add64 b.init_array b.base_addr)

-- The last binary first.
unfoldable pub all_initialisers : Mem → List ElfBinary → List ℕ
unfolding initialisers
all_initialisers m [] = []
all_initialisers m (b ∷ rest) = all_initialisers m rest ++ initialisers m b

unfoldable pub call_all : (ℕ → Mem → Mem) → List ℕ → Process → Process
unfolding call
call_all code [] p = p
call_all code (f ∷ fs) p = call_all code fs (call code f p)

-- No initialiser writes to the `n` words at `a`.
unfoldable pub KeepsWords : (ℕ → Mem → Mem) → ℕ → ℕ → Type 0
KeepsWords code n a =
    (f : ℕ) (m : Mem) (i : ℕ) → i < n → read64 (code f m) (a + 8 * i) ≡ read64 m (a + 8 * i)

-- The init array of the binary has whole entries, and no initialiser writes to it.
pub record KeepsArray (code : ℕ → Mem → Mem) (b : ElfBinary) : Type 0 where
  pub whole : (b.init_arraysz % 8 == 0) ≡ true
  pub words : KeepsWords code (b.init_arraysz / 8) (add64 b.init_array b.base_addr)

call_all-append :
    (code : ℕ → Mem → Mem) (xs ys : List ℕ) (p : Process)
    → call_all code (xs ++ ys) p ≡ call_all code ys (call_all code xs p)
unfolding call_all
call_all-append code [] ys p = refl
call_all-append code (x ∷ xs) ys p = call_all-append code xs ys (call code x p)

module _ (code : ℕ → Mem → Mem) where
  KeepsWords-tail : (n a : ℕ) → KeepsWords code (suc n) a → KeepsWords code n (a + 8)
  unfolding KeepsWords
  KeepsWords-tail n a k f m i h =
      let e : a + 8 * suc i ≡ a + 8 + 8 * i = omega arith in
      subst (λ (x : ℕ). read64 (code f m) x ≡ read64 m x) e (k f m (suc i) (omega (arith, h)))

  KeepsWords-head :
      (n a f : ℕ) (m : Mem) → KeepsWords code (suc n) a → read64 (code f m) a ≡ read64 m a
  unfolding KeepsWords
  KeepsWords-head n a f m k =
      let e : a + 8 * 0 ≡ a = omega arith in
      subst (λ (x : ℕ). read64 (code f m) x ≡ read64 m x) e (k f m 0 (omega arith))

  array_calls-kept :
      (n a f : ℕ) (m : Mem) → KeepsWords code n a → array_calls (code f m) n a ≡ array_calls m n a
  unfolding array_calls
  array_calls-kept zero a f m k = refl
  array_calls-kept (suc n) a f m k =
      rw (KeepsWords-head n a f m k, array_calls-kept n (a + 8) f m (KeepsWords-tail n a k))

  call_array-eq :
      (n a : ℕ) (p : Process)
      → KeepsWords code n a
      → call_array code n a p ≡ call_all code (array_calls p.mem n a) p
  unfolding call_array array_calls call_all call
  call_array-eq zero a p k = refl
  call_array-eq (suc n) a p k = elim (Bool-cases (read64 p.mem a == 0)) [
    | inl e ↦ rw e refl
    | inr e ↦
        let tail = KeepsWords-tail n a k in
        let f : ℕ = read64 p.mem a in
        rw e (
          call_array-eq n (a + 8) (call code f p) tail
          ∙ ap (λ (xs : List ℕ). call_all code xs (call code f p))
              (array_calls-kept n (a + 8) f p.mem tail))
  ]

  -- The binary that a call leaves alone asks for the same afterwards.
  initialisers-kept :
      (b : ElfBinary) (fs : List ℕ) (p : Process)
      → KeepsArray code b
      → initialisers (call_all code fs p).mem b ≡ initialisers p.mem b
  unfolding initialisers call_all call
  initialisers-kept b [] p k = refl
  initialisers-kept b (f ∷ fs) p k =
      initialisers-kept b fs (call code f p) k
      ∙ ap (λ (xs : List ℕ). first_call b ++ xs)
          (array_calls-kept (b.init_arraysz / 8) (add64 b.init_array b.base_addr) f p.mem k.words)

  call_init-eq : (b : ElfBinary) (p : Process) → call_init code b p ≡ call_all code (first_call b) p
  unfolding call_init call_all first_call
  call_init-eq b p = elim (Bool-cases (b.init == 0)) [ inl e ↦ rw e refl | inr e ↦ rw e refl ]

  array_calls-after :
      (n a : ℕ) (fs : List ℕ) (p : Process)
      → KeepsWords code n a
      → array_calls (call_all code fs p).mem n a ≡ array_calls p.mem n a
  unfolding call_all call
  array_calls-after n a [] p k = refl
  array_calls-after n a (f ∷ fs) p k =
      array_calls-after n a fs (call code f p) k ∙ array_calls-kept n a f p.mem k

  init_binary-whole :
      (b : ElfBinary) (p : Process)
      → KeepsArray code b
      → init_binary code b p
        ≡ ok (
            call_array code
              (b.init_arraysz / 8)
              (add64 b.init_array b.base_addr)
              (call_init code b p))
  unfolding init_binary
  init_binary-whole b p k = elim (Bool-cases (b.init_arraysz == 0)) [
    | inl e ↦
        let n : 0 ≡ b.init_arraysz / 8 =
          ap (λ (k : ℕ). k / 8) (sym ((==_iff b.init_arraysz 0).0 e)) in
        rw e (
          ap
            (λ (n : ℕ).
              ok (call_array code n (add64 b.init_array b.base_addr) (call_init code b p)))
            n)
    | inr e ↦ rw (e, k.whole) refl
  ]

  init_binary-eq :
      (b : ElfBinary) (p : Process)
      → KeepsArray code b
      → init_binary code b p ≡ ok (call_all code (initialisers p.mem b) p)
  unfolding initialisers
  init_binary-eq b p k =
      let n : ℕ = b.init_arraysz / 8 in
      let a : ℕ = add64 b.init_array b.base_addr in
      let q : Process = call_all code (first_call b) p in
      init_binary-whole b p k
      ∙ ap ok (
          ap (call_array code n a) (call_init-eq b p)
          ∙ (call_array-eq n a q k.words
              ∙ (ap (λ (xs : List ℕ). call_all code xs q)
                    (array_calls-after n a (first_call b) p k.words)
                  ∙ sym (call_all-append code (first_call b) (array_calls p.mem n a) p))))

  init_each-append :
      (xs : List ElfBinary) (b : ElfBinary) (p : Process)
      → init_each code (xs ++ b ∷ []) p ≡ (init_each code xs p >>= init_binary code b)
  unfolding init_each
  init_each-append [] b p = >>=-ok (init_binary code b p)
  init_each-append (x ∷ xs) b p =
      >>=-split (init_binary code x p) _ _ (init_binary code b) (λ q. init_each-append xs b q)

  all_initialisers-after :
      (bins : List ElfBinary) (fs : List ℕ) (p : Process)
      → All (KeepsArray code) bins
      → all_initialisers (call_all code fs p).mem bins ≡ all_initialisers p.mem bins
  unfolding all_initialisers
  all_initialisers-after [] fs p k = refl
  all_initialisers-after (b ∷ bins) fs p k =
      rw (all_initialisers-after bins fs p k.1, initialisers-kept b fs p k.0)

-- If no initialiser writes to an init array and the arrays have whole entries, the initialisers run
-- without a failing check, in this order: for each binary, from the last loaded to the first, DT_INIT
-- unless it is 0, then the entries of the init array up to the first null one.
pub init_binaries-order :
    (code : ℕ → Mem → Mem) (bins : List ElfBinary) (p : Process)
    → All (KeepsArray code) bins
    → init_binaries code bins p ≡ ok (call_all code (all_initialisers p.mem bins) p)
unfolding init_binaries init_each all_initialisers call_all
init_binaries-order code [] p k = refl
init_binaries-order code (b ∷ bins) p k =
    let q = call_all code (all_initialisers p.mem bins) p in
    ap (λ (xs : List ElfBinary). init_each code xs p) (reverse-cons b bins)
    ∙ (init_each-append code (reverse bins) b p
        ∙ (ap (λ (r : Result Process). r >>= init_binary code b)
              (init_binaries-order code bins p k.1)
            ∙ (init_binary-eq code b q k.0
                ∙ ap ok (
                    ap (λ (xs : List ℕ). call_all code xs q)
                      (initialisers-kept code b (all_initialisers p.mem bins) p k.0)
                    ∙ sym (
                        call_all-append code (all_initialisers p.mem bins) (initialisers p.mem b)
                          p)))))
