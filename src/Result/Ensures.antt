-- ===== src/Result/Ensures.antt =====
-- A postcondition of the runs that succeed, and the rules by which such runs are put together.
use sloader.Base.{Bool, true, false, ◌≡◌, refl, subst, if◌then◌else◌}
use sloader.Result.{Failure, Result, ok, ok-injective, err, check, ◌>>=◌, ◌>>◌}

pub data Ensures {κ ℓ} {X : Type κ} (post : X → Type ℓ) : Result X → Type (κ ⊔ ℓ) where
  returns : {x : X} → post x → Ensures post (ok x)
  fails : {e : Failure} → Ensures post (err e)

pub bind {ℓ κ μ ν} :
    {A : Type ℓ} {B : Type κ} {P : A → Type μ} {Q : B → Type ν} {m : Result A} {f : A → Result B}
    → Ensures P m
    → ((a : A) → P a → Ensures Q (f a))
    → Ensures Q (m >>= f)
bind (returns {x} p) k = k x p
bind fails k = fails

pub checked {ℓ κ} :
    {B : Type ℓ} {Q : B → Type κ} (c : Bool) {m : Result B} → Ensures Q m → Ensures Q (check c >> m)
checked true h = h
checked false h = fails

pub branch {ℓ κ} :
    {A : Type ℓ} {P : A → Type κ} (c : Bool) {m n : Result A}
    → Ensures P m
    → Ensures P n
    → Ensures P (if c then m else n)
branch true h k = h
branch false h k = k

-- The same, whatever the first part returns.
pub bind_any {ℓ κ μ} :
    {A : Type ℓ} {B : Type κ} {Q : B → Type μ} (m : Result A) {f : A → Result B}
    → ((a : A) → Ensures Q (f a))
    → Ensures Q (m >>= f)
bind_any (ok a) k = k a
bind_any (err e) k = fails

-- What holds of every success holds of this one.
pub outcome {ℓ κ} :
    {A : Type ℓ} (P : A → Type κ) (m : Result A) (a : A) → Ensures P m → m ≡ ok a → P a
outcome P (ok b) a (returns p) e = subst P (ok-injective e) p
outcome P (err e) a h p = cc

-- A weaker postcondition.
pub map-Ensures {ℓ κ μ} :
    {A : Type ℓ} {P : A → Type κ} {Q : A → Type μ} {m : Result A}
    → ((a : A) → P a → Q a)
    → Ensures P m
    → Ensures Q m
map-Ensures f (returns {x} p) = returns (f x p)
map-Ensures f fails = fails

-- A postcondition that every value that is returned has.
pub when_ok {ℓ κ} :
    {A : Type ℓ} {P : A → Type κ} (m : Result A) → ((a : A) → m ≡ ok a → P a) → Ensures P m
when_ok (ok a) h = returns (h a refl)
when_ok (err e) h = fails

pub ruleset ensures_rules = (returns, fails, bind_any, checked, branch)
