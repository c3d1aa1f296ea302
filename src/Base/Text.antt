-- ===== src/Base/Text.antt =====
-- The Go strings and byte slices of the program, as lists of code points or bytes, with what the
-- source uses of `strings`, `bytes`, `unicode`, `path/filepath` and `strconv`. Code points stand
-- for a string's characters; every constant of the source is ASCII, where the two agree.
pub mod Digits
use Prim.Native.Char.{code}
use Prim.Native.String.{String}
use Prim.Native.Nat.{ℕ, zero, suc, ◌+◌, ◌-◌, ◌*◌, ◌/◌, ◌%◌, ◌^◌}
use mathlib.Core.Path.{◌≡◌, refl}
use mathlib.Core.Bool.{Bool, true, false, ◌&&◌, ◌||◌}
use mathlib.Core.Option.{Option, none, some}
use mathlib.Core.List.{List, [], ◌∷◌, ◌++◌, reverse}
use native.Mathlib.Omega.{arith}
use ipaversion.Base.Tests.{ltb, leb, ◌==◌, if◌then◌else◌}
use ipaversion.Base.Lists.{length, take}
use ipaversion.Base.Int.{ℤ, pos, negsuc}

abbrev pub Text : Type 0
Text = List ℕ

abbrev pub Bytes : Type 0
Bytes = List ℕ

abbrev pub codes : String → Text
codes String.[] = []
codes (String.◌∷◌ c s) = code c ∷ codes s

unfoldable pub text_eq : Text → Text → Bool
text_eq [] [] = true
text_eq [] (d ∷ t) = false
text_eq (c ∷ s) [] = false
text_eq (c ∷ s) (d ∷ t) = c == d && text_eq s t

pub text_eq_refl : (s : Text) → text_eq s s ≡ true
unfolding text_eq
text_eq_refl [] = refl
text_eq_refl (c ∷ s) = ground (arith, text_eq_refl s)

pub text_eq→≡ : (s t : Text) → text_eq s t ≡ true → s ≡ t
unfolding text_eq
text_eq→≡ [] [] h = refl
text_eq→≡ [] (d ∷ t) h = cc
text_eq→≡ (c ∷ s) [] h = cc
text_eq→≡ (c ∷ s) (d ∷ t) h = ground (arith, text_eq→≡ s t)

unfoldable pub text_is_empty : Text → Bool
text_is_empty [] = true
text_is_empty (c ∷ s) = false

-- `strings.HasPrefix`, with the prefix first.
unfoldable pub has_prefix : Text → Text → Bool
has_prefix [] s = true
has_prefix (c ∷ p) [] = false
has_prefix (c ∷ p) (d ∷ s) = c == d && has_prefix p s

-- `strings.Contains(s, substr)`
unfoldable pub contains : Text → Text → Bool
unfolding has_prefix
contains [] substr = has_prefix substr []
contains (c ∷ s) substr = has_prefix substr (c ∷ s) || contains s substr

-- `strings.HasSuffix(s, suffix)`
unfoldable pub has_suffix : Text → Text → Bool
unfolding text_eq
has_suffix [] suffix = text_eq [] suffix
has_suffix (c ∷ s) suffix = text_eq (c ∷ s) suffix || has_suffix s suffix

-- `strings.TrimSuffix(s, suffix)`
unfoldable pub trim_suffix : Text → Text → Text
unfolding has_suffix
trim_suffix s suffix = if has_suffix s suffix then take (length s - length suffix) s else s

drop_while : (ℕ → Bool) → Text → Text
drop_while p [] = []
drop_while p (c ∷ s) = let rest = drop_while p s in if p c then rest else c ∷ s

after_last_slash : Text → Text → Text
after_last_slash element [] = element
after_last_slash element (c ∷ s) =
    after_last_slash (if c == b'/' then [] else element ++ (c ∷ [])) s

or_if_empty : Text → Text → Text
or_if_empty [] default = default
or_if_empty (c ∷ s) default = c ∷ s

-- `filepath.Base` where the separator is a slash.
unfoldable pub base_name : Text → Text
unfolding drop_while after_last_slash or_if_empty
base_name [] = codes "."
base_name (c ∷ s) =
    or_if_empty (after_last_slash [] (reverse (drop_while (λ d. d == b'/') (reverse (c ∷ s)))))
      (codes "/")

-- `unicode.IsSpace`
unfoldable pub is_space : ℕ → Bool
is_space c =
    (leb 0x9 c && leb c 0xd)
    || c == 0x20
    || c == 0x85
    || c == 0xa0
    || c == 0x1680
    || (leb 0x2000 c && leb c 0x200a)
    || c == 0x2028
    || c == 0x2029
    || c == 0x202f
    || c == 0x205f
    || c == 0x3000

-- `unicode.IsDigit(rune(s[0]))` looks at one byte; a byte above 0x7f is no digit.
unfoldable pub is_digit : ℕ → Bool
is_digit c = leb b'0' c && leb c b'9'

-- `strings.TrimSpace`
unfoldable pub trim_space : Text → Text
unfolding drop_while is_space
trim_space s = reverse (drop_while is_space (reverse (drop_while is_space s)))

flush : Text → List Text → List Text
flush [] rest = rest
flush (c ∷ word) rest = (c ∷ word) ∷ rest

fields_from : Text → Text → List Text
fields_from word [] = flush word []
fields_from word (c ∷ s) = elim (is_space c) [
  | true ↦ flush word (fields_from [] s)
  | false ↦ fields_from (word ++ (c ∷ [])) s
]

-- `strings.Fields`
unfoldable pub fields : Text → List Text
unfolding fields_from flush is_space
fields s = fields_from [] s

digits_value : ℕ → Text → Option ℕ
digits_value acc [] = some acc
digits_value acc (c ∷ s) =
    let rest = digits_value (10 * acc + (c - b'0')) s in if is_digit c then rest else none

unsigned : Text → Option ℕ
unsigned [] = none
unsigned (c ∷ s) = digits_value 0 (c ∷ s)

at_most : ℕ → (ℕ → ℤ) → Option ℕ → Option ℤ
at_most limit sign none = none
at_most limit sign (some n) = if leb n limit then some (sign n) else none

negated : ℕ → ℤ
negated zero = pos 0
negated (suc n) = negsuc n

-- `strconv.Atoi` for a 64-bit `int`; `none` is its error, for bad syntax or a value out of range.
unfoldable pub atoi : Text → Option ℤ
unfolding digits_value unsigned at_most negated is_digit
atoi [] = none
atoi (c ∷ s) =
    if c == b'-'
    then at_most (2 ^ 63) negated (unsigned s)
    else if c == b'+'
    then at_most (2 ^ 63 - 1) pos (unsigned s)
    else at_most (2 ^ 63 - 1) pos (unsigned (c ∷ s))

-- `strings.Repeat(" ", n)`
unfoldable pub spaces : ℕ → Text
spaces zero = []
spaces (suc n) = 0x20 ∷ spaces n

digits_onto : ℕ → ℕ → Text → Text
digits_onto zero n acc = acc
digits_onto (suc fuel) n acc =
    let more = digits_onto fuel (n / 10) ((b'0' + n % 10) ∷ acc) in
    if ltb n 10 then (b'0' + n) ∷ acc else more

-- `%v` of an unsigned number. A number has no more digits than its value plus one.
unfoldable pub decimal : ℕ → Text
unfolding digits_onto
decimal n = digits_onto (suc n) n []

-- `skip` bytes of a match that has been replaced are still to be passed over.
unfoldable pub replace_from : Bytes → Bytes → ℕ → Bytes → Bytes
unfolding has_prefix
replace_from old new skip [] = []
replace_from old new (suc skip) (c ∷ s) = replace_from old new skip s
replace_from old new zero (c ∷ s) =
    let hit = has_prefix old (c ∷ s) in
    (if hit then new else c ∷ []) ++ replace_from old new (if hit then length old - 1 else 0) s

-- `bytes.ReplaceAll(s, old, new)` for an `old` that is not empty.
unfoldable pub replace_all : Bytes → Bytes → Bytes → Bytes
unfolding replace_from
replace_all s old new = replace_from old new 0 s
