-- ===== src/Result/Without.antt =====
-- A run that does not end by exhausting the fuel of a given loop, and the rules by which such runs
-- are put together.
use sloader.Base.{Bool, true, false, ◌≡◌, ◌≢◌, refl, if◌then◌else◌}
use sloader.Result.{Loop, Failure, out_of_fuel, Result, ok, err, check, ◌>>=◌, ◌>>◌}

pub data Without {ℓ} (loop : Loop) {A : Type ℓ} : Result A → Type ℓ where
  fine : {a : A} → Without loop (ok a)
  failed : {e : Failure} → e ≢ out_of_fuel loop → Without loop (err e)

pub bind {ℓ κ} :
    {A : Type ℓ} {B : Type κ} {loop : Loop} {m : Result A} {f : A → Result B}
    → Without loop m
    → ((a : A) → Without loop (f a))
    → Without loop (m >>= f)
bind (fine {a}) k = k a
bind (failed h) k = failed h

-- The same, where the rest needs to know what the first part returned.
pub bind_eq {ℓ κ} :
    {A : Type ℓ} {B : Type κ} {loop : Loop} (m : Result A) {f : A → Result B}
    → Without loop m
    → ((a : A) → m ≡ ok a → Without loop (f a))
    → Without loop (m >>= f)
bind_eq (ok a) h k = k a refl
bind_eq (err e) (failed h) k = failed h

pub checked {ℓ} :
    {B : Type ℓ} {loop : Loop} (c : Bool) {m : Result B}
    → Without loop m
    → Without loop (check c >> m)
checked true h = h
checked false h = failed (λ e. cc e)

pub branch {ℓ} :
    {A : Type ℓ} {loop : Loop} (c : Bool) {m n : Result A}
    → Without loop m
    → Without loop n
    → Without loop (if c then m else n)
branch true h k = h
branch false h k = k

pub Without-ne {ℓ} :
    {A : Type ℓ} (loop : Loop) (m : Result A) → Without loop m → m ≢ err (out_of_fuel loop)
Without-ne loop (ok a) h = λ e. cc e
Without-ne loop (err e) (failed h) = λ p. h (cc p)

pub ruleset without_rules = (fine, failed, bind, checked, branch)
