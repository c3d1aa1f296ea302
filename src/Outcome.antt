-- ===== src/Outcome.antt =====
-- How a Go call ends: with its results, with a non-nil `error`, or with a panic. An error is the
-- text of its message, to which `fmt.Errorf` adds.
use ipaversion.Base.{◌≡◌, ◌≢◌, refl, ◌⊎◌, inl, inr, Option, none, some, ◌++◌}
use ipaversion.Base.Text.{Text, codes}

pub data Outcome {ℓ} (A : Type ℓ) : Type ℓ where
  ok : A → Outcome A
  err : Text → Outcome A
  panic : Text → Outcome A

infixl 5 ◌>>=◌
abbrev pub ◌>>=◌ {ℓ κ} : {A : Type ℓ} {B : Type κ} → Outcome A → (A → Outcome B) → Outcome B
ok a >>= f = f a
err e >>= f = err e
panic p >>= f = panic p

-- The result of a call that does not panic.
pub data Result {ℓ} (A : Type ℓ) : Type ℓ where
  done : A → Result A
  failed : Text → Result A

abbrev pub outcome {ℓ} : {A : Type ℓ} → Result A → Outcome A
outcome (done a) = ok a
outcome (failed e) = err e

-- Use of the pointer that is nil, or of the slice element that is not there.
abbrev pub or_panic {ℓ} : {A : Type ℓ} → Option A → Text → Outcome A
or_panic none message = panic message
or_panic (some a) message = ok a

-- A sequence that succeeds is one of two steps that succeed.
pub >>=-eq-ok {ℓ κ} :
    {A : Type ℓ} {B : Type κ} (step : Outcome A) (next : A → Outcome B) {y : B}
    → (step >>= next) ≡ ok y
    → (x : A) × (step ≡ ok x) × (next x ≡ ok y)
>>=-eq-ok (panic message) next fine = cc
>>=-eq-ok (err message) next fine = cc
>>=-eq-ok (ok x) next fine = (x, refl, fine)

-- Steps that return no error make a whole that returns none.
pub >>=-ne-err {ℓ κ} :
    {A : Type ℓ} {B : Type κ} (m : Outcome A) (f : A → Outcome B) (e : Text)
    → ((d : Text) → m ≢ err d)
    → ((a : A) → f a ≢ err e)
    → (m >>= f) ≢ err e
>>=-ne-err (ok a) f e hm hf h = hf a h
>>=-ne-err (err d) f e hm hf h = hm d refl
>>=-ne-err (panic p) f e hm hf h = cc

pub Result-cases {ℓ} :
    {A : Type ℓ} (r : Result A) → ((a : A) × (r ≡ done a)) ⊎ ((e : Text) × (r ≡ failed e))
Result-cases (done a) = inl (a, refl)
Result-cases (failed e) = inr (e, refl)

pub Outcome-cases {ℓ} :
    {A : Type ℓ} (r : Outcome A)
    → ((a : A) × (r ≡ ok a)) ⊎ (((e : Text) × (r ≡ err e)) ⊎ ((p : Text) × (r ≡ panic p)))
Outcome-cases (ok a) = inl (a, refl)
Outcome-cases (err e) = inr (inl (e, refl))
Outcome-cases (panic p) = inr (inr (p, refl))

-- Go's own panics.
abbrev pub nil_dereference : Text
nil_dereference = codes "invalid memory address or nil pointer dereference"

abbrev pub index_out_of_range : Text
index_out_of_range = codes "index out of range"

abbrev pub interface_conversion : Text
interface_conversion = codes "interface conversion"

-- `fmt.Errorf("message%w", err)`
abbrev pub wrap_message : Text → Text → Text
wrap_message message e = message ++ e
