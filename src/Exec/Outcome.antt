-- ===== src/Exec/Outcome.antt =====
-- The outcome of code that may fail.
use scherzo.Prelude.{◌≡◌, refl, ◌⊎◌, inl, inr, Bytes, Bool, true, false, Option, none, some}
use scherzo.Error.{ServerError}

-- A `ServerError`, an error raised by `bail!((identifier, message))`, or a panic of the code.
pub data Failure : Type 0 where
  server : ServerError → Failure
  bail : Bytes → Bytes → Failure
  panic : Failure
  -- `unwrap_unchecked` of nothing: the code has no defined outcome.
  undefined : Failure
  -- Not an outcome of the code: the random draws given to the model ended before a loop did.
  out_of_draws : Failure

pub data Result (A : Type 0) : Type 0 where
  ok : A → Result A
  err : Failure → Result A

abbrev pub Done : Type 0
Done = Unit

abbrev pub then_do : {A B : Type 0} → Result A → (A → Result B) → Result B
then_do (ok a) f = f a
then_do (err e) f = err e

abbrev pub is_ok : {A : Type 0} → Result A → Bool
is_ok (ok _) = true
is_ok (err _) = false

-- `Option::expect`, `Option::ok_or`
abbrev pub ok_or : {A : Type 0} → Option A → Failure → Result A
ok_or none e = err e
ok_or (some a) e = ok a

-- `cond.then(|| Ok(())).unwrap_or(Err(e))`
abbrev pub ensure : Bool → Failure → Result Done
ensure true e = ok tt
ensure false e = err e

pub Result-cases :
    {A : Type 0} (r : Result A) → ((e : Failure) × (r ≡ err e)) ⊎ ((a : A) × (r ≡ ok a))
Result-cases (ok a) = inr (a, refl)
Result-cases (err e) = inl (e, refl)

pub then_do-eq-ok :
    {A B : Type 0} (r : Result A) (f : A → Result B) {b : B}
    → then_do r f ≡ ok b
    → (a : A) × (r ≡ ok a) × (f a ≡ ok b)
then_do-eq-ok (ok a) f h = (a, refl, h)
then_do-eq-ok (err e) f h = cc
