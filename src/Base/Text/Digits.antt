-- ===== src/Base/Text/Digits.antt =====
-- A number that is printed is read back: `%v` and `strconv.Atoi`.
use Prim.Native.Nat.{ℕ, zero, suc, ◌+◌, ◌-◌, ◌*◌, ◌/◌, ◌%◌, ◌^◌, ◌≤◌, ◌<◌}
use mathlib.Core.Path.{◌≡◌, refl, sym, ap, ◌∙◌}
use mathlib.Core.Bool.{true, false}
use mathlib.Core.Logic.{inl, inr}
use mathlib.Core.Option.{some}
use mathlib.Core.List.{[], ◌∷◌}
use native.Mathlib.Omega.{arith}
use ipaversion.Base.Tests.{ltb, leb, ◌==◌, Bool-cases}
use ipaversion.Base.Int.{pos}
use ipaversion.Base.Text.{
  Text, is_digit, digits_value, digits_onto, unsigned, at_most, atoi, decimal,
}

digits_value-digit :
    (k d : ℕ) (acc : Text)
    → d < 10
    → digits_value k ((48 + d) ∷ acc) ≡ digits_value (10 * k + d) acc
unfolding digits_value is_digit
digits_value-digit k d acc h =
    let e : 48 + d - 48 ≡ d = omega arith in
    let digit : is_digit (48 + d) ≡ true = ground (arith, h) in rw digit (rw e refl)

digits_value-digits_onto :
    (fuel n : ℕ) (acc : Text)
    → n < fuel
    → digits_value 0 (digits_onto fuel n acc) ≡ digits_value n acc
unfolding digits_value digits_onto is_digit
digits_value-digits_onto zero n acc h = absurd (omega (arith, h))
digits_value-digits_onto (suc fuel) n acc h = elim (Bool-cases (ltb n 10)) [
  | inl small ↦ ground (arith, small)
  | inr large ↦
      let l : 10 ≤ n = ground (arith, large) in
      let ih = digits_value-digits_onto fuel (n / 10) ((48 + n % 10) ∷ acc) (omega (arith, h, l)) in
      let e : 10 * (n / 10) + n % 10 ≡ n = omega arith in
      rw large (
        ih
        ∙ digits_value-digit (n / 10) (n % 10) acc (omega arith)
        ∙ ap (λ m. digits_value m acc) e)
]

-- The text starts with a digit.
abbrev pub StartsWithDigit : Text → Type 0
StartsWithDigit s = (c : ℕ) × (t : Text) × (s ≡ c ∷ t) × (is_digit c ≡ true)

digits_onto-StartsWithDigit :
    (fuel n : ℕ) (acc : Text) → n < fuel → StartsWithDigit (digits_onto fuel n acc)
unfolding digits_onto is_digit
digits_onto-StartsWithDigit zero n acc h = absurd (omega (arith, h))
digits_onto-StartsWithDigit (suc fuel) n acc h = elim (Bool-cases (ltb n 10)) [
  | inl small ↦ rw small (48 + n, acc, refl, ground (arith, small))
  | inr large ↦
      let l : 10 ≤ n = ground (arith, large) in
      rw large
        (digits_onto-StartsWithDigit fuel (n / 10) ((48 + n % 10) ∷ acc) (omega (arith, h, l)))
]

pub decimal-StartsWithDigit : (n : ℕ) → StartsWithDigit (decimal n)
unfolding decimal
decimal-StartsWithDigit n = digits_onto-StartsWithDigit (suc n) n [] (omega arith)

digits_value-decimal : (n : ℕ) → digits_value 0 (decimal n) ≡ some n
unfolding decimal digits_value
digits_value-decimal n = digits_value-digits_onto (suc n) n [] (omega arith)

atoi_digit :
    (c : ℕ) (t : Text) (n : ℕ)
    → is_digit c ≡ true
    → digits_value 0 (c ∷ t) ≡ some n
    → n < 2 ^ 63
    → atoi (c ∷ t) ≡ some (pos n)
unfolding atoi unsigned at_most is_digit
atoi_digit c t n digit value small =
    let low : 48 ≤ c = ground (arith, digit) in
    let no_minus : (c == 45) ≡ false = ground (arith, low) in
    let no_plus : (c == 43) ≡ false = ground (arith, low) in
    let fits : leb n 9223372036854775807 ≡ true = ground (arith, small) in
    rw (no_minus, no_plus) (rw value (rw fits refl))

pub atoi-decimal : (n : ℕ) → n < 2 ^ 63 → atoi (decimal n) ≡ some (pos n)
atoi-decimal n h =
    let (c, t, e, digit) = decimal-StartsWithDigit n in
    rw e (atoi_digit c t n digit (rw⁻¹ e (digits_value-decimal n)) h)

-- Two numbers with one decimal are one number.
pub decimal-Injective : (m n : ℕ) → decimal m ≡ decimal n → m ≡ n
decimal-Injective m n h =
    some-Injective (sym (digits_value-decimal m) ∙ ap (digits_value 0) h ∙ digits_value-decimal n)
  where
    some-Injective : some m ≡ some n → m ≡ n
    some-Injective q = cc
