-- ===== src/Download/Progress.antt =====
-- ipaversionlib/util.go: the copy of a body through a `WriteCounter`.
use ipaversion.Base.{
  ℕ, ◌+◌, ◌≤◌, ◌<◌, ◌==◌, ◌≡◌, refl, sym, ◌∙◌, inl, inr, Bool, Bool-cases, List, [], ◌∷◌, ◌++◌,
  length, arith, if◌then◌else◌,
}
use ipaversion.Base.Text.{Text, Bytes, codes, spaces}
use ipaversion.Base.Int.{ℤ, pos, eqb_ℤ}
use ipaversion.Download.Fetch.{WriteCounter, new_write_counter, print_progress, write}

-- What `io.Copy` from the `io.TeeReader` prints for the chunks that it reads, and the counter then.
unfoldable pub copied : (ℕ → ℤ → Text) → WriteCounter → List Bytes → Text × WriteCounter
copied percent wc [] = ([], wc)
copied percent wc (p ∷ ps) =
    let wc' = (write wc p).1 in
    let (printed, counter) = copied percent wc' ps in
    (print_progress percent wc' ++ printed, counter)

abbrev pub one_if : Bool → ℕ
one_if b = if b then 1 else 0

unfoldable pub newlines : Text → ℕ
newlines [] = 0
newlines (c ∷ t) = one_if (c == 0xa) + newlines t

abbrev pub total_length : List Bytes → ℕ
total_length [] = 0
total_length (p ∷ ps) = length p + total_length ps

-- A `TeeReader` writes no empty chunk.
abbrev pub AreFilled : List Bytes → Type 0
AreFilled [] = Unit
AreFilled (p ∷ ps) = (0 < length p) × AreFilled ps

newlines-append : (s t : Text) → newlines (s ++ t) ≡ newlines s + newlines t
unfolding newlines
newlines-append [] t = omega arith
newlines-append (c ∷ s) t = let h = newlines-append s t in omega (arith, h)

newlines-blank : newlines (0xd ∷ spaces 50) ≡ 0
unfolding newlines spaces
newlines-blank = refl

newlines-label : (t : Text) → newlines (0xd ∷ (codes "Progress: " ++ t)) ≡ newlines t
unfolding newlines
newlines-label t = omega arith

newlines-percent : newlines (codes "%") ≡ 0
unfolding newlines
newlines-percent = refl

newlines-last :
    (n c : ℕ) → newlines (if eqb_ℤ (pos c) (pos n) then 0xa ∷ [] else []) ≡ one_if (c == n)
unfolding newlines
newlines-last n c = ground arith

newlines-none : newlines [] ≡ 0
unfolding newlines
newlines-none = refl

not_yet : (a n : ℕ) → a < n → one_if (a == n) ≡ 0
not_yet a n h = ground arith

now : (a n : ℕ) → a ≡ n → one_if (a == n) ≡ 1
now a n h = ground arith

module _ (percent : ℕ → ℤ → Text) (plain : (a : ℕ) (b : ℤ) → newlines (percent a b) ≡ 0) where
  newlines-print_progress :
      (n c : ℕ)
      → newlines (print_progress percent (record { total = pos n; count = c })) ≡ one_if (c == n)
  unfolding print_progress
  newlines-print_progress n c =
      let shown = percent c (pos n) ++ codes "%" in
      let last : Text = if eqb_ℤ (pos c) (pos n) then 0xa ∷ [] else [] in
      newlines-append (0xd ∷ spaces 50) ((0xd ∷ (codes "Progress: " ++ shown)) ++ last)
      ∙ rw
          (
            newlines-blank,
            newlines-append (0xd ∷ (codes "Progress: " ++ shown)) last,
            newlines-label shown,
            newlines-append (percent c (pos n)) (codes "%"),
            plain c (pos n),
            newlines-percent,
            newlines-last n c,
          )
          (omega arith)

  -- Nothing is left to read once the count is the total.
  none_left : (ps : List Bytes) → AreFilled ps → total_length ps ≤ 0 → ps ≡ []
  none_left [] filled h = refl
  none_left (p ∷ ps) filled h = absurd (omega (arith, filled.0, h))

  copied_from :
      (n c : ℕ) (ps : List Bytes)
      → AreFilled ps
      → c < n
      → c + total_length ps ≤ n
      → let (printed, counter) = copied percent (record { total = pos n; count = c }) ps in
        (counter.count ≡ c + total_length ps)
        × (newlines printed ≡ one_if (c + total_length ps == n))
  unfolding copied write
  copied_from n c [] filled h1 h2 =
      (omega arith, newlines-none ∙ sym (not_yet (c + 0) n (omega (arith, h1))))
  copied_from n c (p ∷ ps) filled h1 h2 =
      let d = c + length p in
      let here = newlines-print_progress n d in
      let (rest, counter) = copied percent (record { total = pos n; count = d }) ps in
      let split =
        newlines-append (print_progress percent (record { total = pos n; count = d })) rest in
      elim (Bool-cases (d == n)) [
        | inl full ↦
            let same : d ≡ n = ground arith in
            let over = none_left ps filled.1 (omega (arith, same, h2)) in
            rw over (
              omega arith,
              let alone =
                    newlines-append (print_progress percent (record { total = pos n; count = d }))
                      [] in
                  let whole = now (c + (length p + 0)) n (omega (arith, same)) in
                  omega (arith, alone, here, now d n same, newlines-none, whole),
            )
        | inr part ↦
            let less : d < n = ground arith in
            let (counted, broken) = copied_from n d ps filled.1 less (omega (arith, h2)) in
            (
              omega (arith, counted),
              let assoc : c + (length p + total_length ps) ≡ d + total_length ps = omega arith in
                  rw assoc (omega (arith, split, here, not_yet d n less, broken)),
            )
      ]

  -- If the percentages hold no newline, the server announces a length above 0, and what it sends comes
  -- in chunks that are not empty and is no longer than that, then the counter has counted all of it in
  -- the end, and the progress has ended its line once if all has come, and not at all otherwise.
  pub copied_lem :
      (n : ℕ) (ps : List Bytes)
      → AreFilled ps
      → 0 < n
      → total_length ps ≤ n
      → let (printed, counter) = copied percent (new_write_counter (pos n)) ps in
        (counter.count ≡ total_length ps) × (newlines printed ≡ one_if (total_length ps == n))
  unfolding new_write_counter
  copied_lem n ps filled h1 h2 =
      let (counted, broken) = copied_from n 0 ps filled h1 (omega (arith, h2)) in
      let start : 0 + total_length ps ≡ total_length ps = omega arith in
      (counted ∙ start, rw start at broken)
