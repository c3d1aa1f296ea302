-- ===== src/World/Monad.antt =====
-- Go code that returns an error: sequencing, wrapping of errors, and deferred calls.
use ipaversion.Base.Text.{Text}
use ipaversion.Outcome.{Outcome, ok, err, panic}

-- Code over the state `S`. What it has done stays done when it fails.
abbrev pub Run : Type 0 → Type 0 → Type 0
Run S A = S → Outcome A × S

-- What follows a call, from how the call ended.
abbrev pub after : {S A B : Type 0} → Outcome A × S → (A → Run S B) → Outcome B × S
after (ok a, w) f = f a w
after (err e, w) f = (err e, w)
after (panic p, w) f = (panic p, w)

infixl 5 ◌>>=◌ ◌>>◌
abbrev pub ◌>>=◌ : {S A B : Type 0} → Run S A → (A → Run S B) → Run S B
◌>>=◌ m f w = after (m w) f

abbrev pub ◌>>◌ : {S A B : Type 0} → Run S A → Run S B → Run S B
◌>>◌ m k w = after (m w) (λ _. k)

abbrev pub pure : {S A : Type 0} → A → Run S A
pure a w = (ok a, w)

abbrev pub lift : {S A : Type 0} → Outcome A → Run S A
lift r w = (r, w)

abbrev pub with_message : {S A : Type 0} → (Text → Text) → Outcome A × S → Outcome A × S
with_message f (ok a, w) = (ok a, w)
with_message f (err e, w) = (err (f e), w)
with_message f (panic p, w) = (panic p, w)

-- `if err != nil { return fmt.Errorf(…) }` after the call `m`.
abbrev pub on_error : {S A : Type 0} → (Text → Text) → Run S A → Run S A
on_error f m w = with_message f (m w)

abbrev pub cleaned : {S A B : Type 0} → Run S B → Outcome A × S → Outcome A × S
cleaned cleanup (r, w) = (r, (cleanup w).1)

-- `defer cleanup()`: it runs however `m` ends, and its result is dropped.
abbrev pub deferring : {S A B : Type 0} → Run S B → Run S A → Run S A
deferring cleanup m w = cleaned cleanup (m w)

-- A call whose error is not looked at.
abbrev pub ignore : {S A : Type 0} → Run S A → Run S (Unit {0})
ignore m w = (ok tt, (m w).1)
