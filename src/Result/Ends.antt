-- ===== src/Result/Ends.antt =====
-- How a call ends: with a value, or with a failure and the reason for it.
use sloader.Base.{◌≡◌, subst}
use sloader.Result.{Failure, Result, ok, err, ◌>>=◌}

pub data Ends {ℓ κ} {A : Type ℓ} (why : Failure → Type κ) : Result A → Type (ℓ ⊔ κ) where
  returns : (a : A) → Ends why (ok a)
  fails : (e : Failure) → why e → Ends why (err e)

pub bind {ℓ κ μ} :
    {A : Type ℓ} {B : Type κ} {why : Failure → Type μ} {m : Result A} {f : A → Result B}
    → Ends why m
    → ((a : A) → Ends why (f a))
    → Ends why (m >>= f)
bind (returns a) k = k a
bind (fails e w) k = fails e w

err-injective {ℓ} : {A : Type ℓ} {e e' : Failure} → ◌≡◌ {A = Result A} (err e) (err e') → e ≡ e'
err-injective h = cc

-- A failure has its reason.
pub reason {ℓ κ} :
    {A : Type ℓ} {why : Failure → Type κ} {m : Result A} {e : Failure}
    → Ends why m
    → m ≡ err e
    → why e
reason (returns a) h = cc
reason {A} {why} (fails e' w) h = subst why (err-injective {A = A} h) w
