-- ===== src/Trials/Recover.antt =====
-- test/recover-test/recover-test.go: a loop whose body panics, which is recovered. The state is what
-- has been printed, line by line.
use ipaversion.Base.{
  ℕ, zero, suc, ◌+◌, ◌-◌, ◌/◌, ◌≡◌, refl, ◌∙◌, Bool-cases, ◌==◌, ◌||◌, inl, inr, List, [], ◌∷◌,
  ◌++◌, append-nil, append_assoc, arith, if◌then◌else◌,
}
use ipaversion.Base.Text.{Text, codes, decimal}
use ipaversion.Outcome.{Outcome, ok, err, panic}
use ipaversion.World.{Run, ◌>>=◌, ◌>>◌, pure, lift}

abbrev divide_error : Text
divide_error = codes "runtime error: integer divide by zero"

-- Division of ints, which panics for a zero; a quotient by another number is not reached.
divided : ℕ → ℕ → Outcome ℕ
divided m zero = panic divide_error
divided m (suc n) = ok (m / suc n)

abbrev print : Text → Run (List Text) (Unit {0})
print line lines = (ok tt, lines ++ (line ∷ []))

abbrev done_line : ℕ → Text
done_line i = codes "done something " ++ decimal i

abbrev warn_line : ℕ → Text → Text
warn_line i message =
    codes "[WARN] Recovered from do something " ++ (decimal i ++ (codes ": " ++ message))

-- The body of `doSomething`.
unfoldable pub something : ℕ → Run (List Text) (Unit {0})
unfolding divided
something i = do
  if i == 1 || i == 3 then (do q ← lift (divided i (i - i)); print (decimal q)) else pure tt
  print (done_line i)

-- Its deferred `recover`.
unfoldable pub recover_line : ℕ → Outcome (Unit {0}) × List Text → Outcome (Unit {0}) × List Text
recover_line i (ok u, lines) = (ok u, lines)
recover_line i (err e, lines) = (err e, lines)
recover_line i (panic p, lines) = print (warn_line i p) lines

-- `doSomething`
unfoldable pub do_something : ℕ → Run (List Text) (Unit {0})
unfolding something recover_line
do_something i lines = recover_line i (something i lines)

-- The loop of `myfun`, with the rounds that are left.
unfoldable pub my_fun_from : ℕ → ℕ → Run (List Text) (Unit {0})
unfolding do_something
my_fun_from zero i = pure tt
my_fun_from (suc rounds) i = do do_something i; my_fun_from rounds (i + 1)

-- `myfun`, and `main`, which calls it.
unfoldable pub my_fun : Run (List Text) (Unit {0})
unfolding my_fun_from
my_fun = my_fun_from 6 0

-- The one line that each call prints.
abbrev pub line_of : ℕ → Text
line_of i = if i == 1 || i == 3 then warn_line i divide_error else done_line i

abbrev pub lines_from : ℕ → ℕ → List Text
lines_from zero i = []
lines_from (suc rounds) i = line_of i ∷ lines_from rounds (i + 1)

do_something_lem :
    (i : ℕ) (lines : List Text) → do_something i lines ≡ (ok tt, lines ++ (line_of i ∷ []))
unfolding do_something something recover_line divided
do_something_lem i lines = elim (Bool-cases (i == 1 || i == 3)) [
  | inl h ↦ let z : i - i ≡ 0 = omega arith in rw (h, z) refl
  | inr h ↦ rw h refl
]

-- A panic that is recovered does not end the loop: each call prints one line, a warning where it
-- divides by zero.
my_fun_from_lem :
    (rounds i : ℕ) (lines : List Text)
    → my_fun_from rounds i lines ≡ (ok tt, lines ++ lines_from rounds i)
unfolding my_fun_from
my_fun_from_lem zero i lines = rw append-nil refl
my_fun_from_lem (suc rounds) i lines =
    rw (do_something_lem i lines)
      (my_fun_from_lem rounds (i + 1) (lines ++ (line_of i ∷ [])) ∙ rw append_assoc refl)
