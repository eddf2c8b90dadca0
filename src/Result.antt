-- ===== src/Result.antt =====
-- How a call of the loader ends: the CHECK macros and the LOG(FATAL) exits of utils.h.
pub mod Without
pub mod Ensures
pub mod Ends
use sloader.Base.{◌⊎◌, inl, inr, Bool, true, false, ◌≡◌, ap, refl}

-- The loops that take fuel.
pub data Loop : Type 0 where
  split_loop : Loop
  symbol_loop : Loop
  include_loop : Loop
  queue_loop : Loop

pub data Failure : Type 0 where
  check_failed : Failure
  aborted : Failure
  undefined_behaviour : Failure
  out_of_fuel : Loop → Failure

pub data Result {ℓ} (A : Type ℓ) : Type ℓ where
  -- the value that the call returns
  ok : (value : A) → Result A
  -- how it ends otherwise
  err : (failure : Failure) → Result A

infixl 5 ◌>>=◌ ◌>>◌
-- The rest of a function runs on what the call before it returned.
abbrev pub ◌>>=◌ {κ ι} : {X : Type κ} {Y : Type ι} → Result X → (X → Result Y) → Result Y
err failure >>= rest = err failure
ok value >>= rest = rest value

-- `CHECK(x)`: prints a message and calls `exit(1)` if the condition is false
abbrev pub check : Bool → Result (Unit {0})
check false = err check_failed
check true = ok tt

abbrev pub ◌>>◌ {κ} : {Y : Type κ} → Result (Unit {0}) → Result Y → Result Y
first >> rest = first >>= λ (u : Unit {0}). rest

-- Inversion of a chain that succeeds.
pub >>=-eq-ok {κ ι} :
    {X : Type κ} {Y : Type ι} (call : Result X) (rest : X → Result Y) {y : Y}
    → (call >>= rest) ≡ ok y
    → (x : X) × (call ≡ ok x) × (rest x ≡ ok y)
>>=-eq-ok (err failure) rest h = cc
>>=-eq-ok (ok x) rest h = (x, refl, h)

pub check-eq-ok {ℓ} :
    {B : Type ℓ} (c : Bool) (m : Result B) {b : B} → (check c >> m) ≡ ok b → (c ≡ true) × (m ≡ ok b)
check-eq-ok true m h = (refl, h)
check-eq-ok false m h = cc

pub ok-injective {ℓ} : {A : Type ℓ} {a b : A} → ◌≡◌ {A = Result A} (ok a) (ok b) → a ≡ b
ok-injective h = cc

pub Result-cases {ℓ} :
    {A : Type ℓ} (m : Result A) → ((a : A) × (m ≡ ok a)) ⊎ ((e : Failure) × (m ≡ err e))
Result-cases (ok a) = inl (a, refl)
Result-cases (err e) = inr (e, refl)

pub >>=-ok {ℓ} : {A : Type ℓ} (m : Result A) → (m >>= λ a. ok a) ≡ m
>>=-ok (ok a) = refl
>>=-ok (err e) = refl

-- A chain splits where each of its continuations does.
pub >>=-split {ℓ κ μ} :
    {A : Type ℓ} {B : Type κ} {C : Type μ} (m : Result A) (f : A → Result C) (g : A → Result B)
    (h : B → Result C)
    → ((a : A) → f a ≡ (g a >>= h))
    → (m >>= f) ≡ (m >>= g >>= h)
>>=-split (ok a) f g h e = e a
>>=-split (err e) f g h k = refl

pub >>=-ext {ℓ κ} :
    {A : Type ℓ} {B : Type κ} (m : Result A) (f g : A → Result B)
    → ((a : A) → f a ≡ g a)
    → (m >>= f) ≡ (m >>= g)
>>=-ext (ok a) f g e = e a
>>=-ext (err e) f g k = refl

-- A chain goes on with the value of its first call, and behind a check that passes.
pub >>=-continue {ℓ κ} :
    {A : Type ℓ} {B : Type κ} {m : Result A} {a : A}
    → m ≡ ok a
    → (f : A → Result B) → (m >>= f) ≡ f a
>>=-continue {A} e f = ap (λ (r : Result A). r >>= f) e

pub check-continue {ℓ} : {B : Type ℓ} {c : Bool} → c ≡ true → (m : Result B) → (check c >> m) ≡ m
check-continue h m = ap (λ (c : Bool). check c >> m) h
