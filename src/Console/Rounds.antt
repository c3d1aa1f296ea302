-- ===== src/Console/Rounds.antt =====
-- The loop of `handleInput`: when it ends, and what one round can do.
use ipaversion.Base.{
  ◌^◌, ℕ, zero, suc, ◌≤◌, ◌<◌, ◌≡◌, ◌≢◌, ◌⊎◌, inl, inr, refl, Bool, Bool-cases, ◌||◌, true, false,
  Option, none, some, List, [], ◌∷◌, ◌++◌, length, get_elem?, arith,
}
use ipaversion.Base.Int.{ℤ, pos, negsuc}
use ipaversion.Base.Text.{
  decimal, Text, codes, trim_space, fields, atoi, is_digit, is_space, text_eq,
}
use ipaversion.Base.Text.Digits.{decimal-StartsWithDigit, atoi-decimal}
use ipaversion.Outcome.{Outcome, ok, err, panic}
use ipaversion.App.{AppInfo}
use ipaversion.Download.{download_app}
use ipaversion.World.{Env, World, Action, write_file, plain}
use ipaversion.Console.Input.{
  Next, again, leave, printed, xml_name, download_version, on_index, dump_version, on_dump,
  on_dump_words, on_command, on_input, handle_read, then_loop, handle_input,
}

then_loop-cong :
    (x : Outcome Next × World) {f g : Action Bool}
    → ((v : World) → f v ≡ g v)
    → then_loop x f ≡ then_loop x g
then_loop-cong (ok leave, v) h = refl
then_loop-cong (ok again, v) h = h v
then_loop-cong (err e, v) h = refl
then_loop-cong (panic p, v) h = refl

then_loop-ne :
    (x : Outcome Next × World) (f : Action Bool)
    → ((v : World) → (f v).0 ≢ ok false)
    → (then_loop x f).0 ≢ ok false
then_loop-ne (ok leave, v) f h q = cc
then_loop-ne (ok again, v) f h q = h v q
then_loop-ne (err e, v) f h q = cc
then_loop-ne (panic p, v) f h q = cc

module _ (env : Env) (versions : List AppInfo) (user_agent : Text) where
  at_end :
      (rounds : ℕ) (w : World) → handle_input env versions user_agent rounds [] w ≡ (ok false, w)
  unfolding handle_input handle_read
  at_end zero w = refl
  at_end (suc rounds) w = at_end rounds w

  on_input_exit : (w : World) → on_input env versions user_agent (codes "exit") w ≡ (ok leave, w)
  unfolding on_input on_command is_digit fields text_eq is_space
  on_input_exit w = refl

  -- One round for each read decides: with more rounds than reads, the loop ends as it does with as
  -- many. So a loop that has not been left when the reads are at their end is never left.
  pub handle_input_stable :
      (rounds : ℕ) (reads : List (Option Text)) (w : World)
      → length reads ≤ rounds
      → handle_input env versions user_agent rounds reads w
        ≡ handle_input env versions user_agent (length reads) reads w
  unfolding handle_input
  handle_input_stable rounds [] w h = at_end rounds w
  handle_input_stable zero (r ∷ reads) w h = absurd (omega (arith, h))
  handle_input_stable (suc rounds) (r ∷ reads) w h =
      then_loop-cong (handle_read env versions user_agent r w)
        (λ v. handle_input_stable rounds reads v (omega (arith, h)))

  -- A line with the word `exit` alone ends the loop, in the round that reads it if no earlier one
  -- has: after as many rounds the loop does not run on.
  pub handle_input_exit :
      (rounds : ℕ) (before after : List (Option Text)) (line : Text) (w : World)
      → trim_space line ≡ codes "exit"
      → length before < rounds
      → (handle_input env versions user_agent rounds (before ++ (some line ∷ after)) w).0 ≢ ok false
  unfolding handle_input handle_read
  handle_input_exit zero before after line w h l = absurd (omega (arith, l))
  handle_input_exit (suc rounds) [] after line w h l = rw (h, on_input_exit w) (λ q. cc)
  handle_input_exit (suc rounds) (r ∷ before) after line w h l =
      then_loop-ne (handle_read env versions user_agent r w)
        (handle_input env versions user_agent rounds (before ++ (some line ∷ after)))
        (λ v. handle_input_exit rounds before after line v h (omega (arith, l)))

  -- What a round may do to the world for the version at index `i`.
  abbrev Touches : World → World → AppInfo → Type 0
  Touches w v app =
      (v ≡ (download_app env app user_agent true w).1)
      ⊎ (v ≡ (write_file (xml_name app) (plain app.response) w).1)

  abbrev Kept : World → World → Type 0
  Kept w v =
      (v ≡ w) ⊎ ((i : ℕ) × (app : AppInfo) × (get_elem? versions i ≡ some app) × Touches w v app)

  printed-world : {A : Type 0} (next : Next) (x : Outcome A × World) → (printed next x).1 ≡ x.1
  printed-world next (ok a, w) = refl
  printed-world next (err e, w) = refl
  printed-world next (panic p, w) = refl

  on_index-Kept : (z : Option ℤ) (w : World) → Kept w (on_index env versions user_agent z w).1
  unfolding on_index download_version
  on_index-Kept none w = inl refl
  on_index-Kept (some (negsuc n)) w = inl refl
  on_index-Kept (some (pos i)) w = at (get_elem? versions i) refl
    where
      at :
          (o : Option AppInfo)
          → get_elem? versions i ≡ o
          → Kept w (download_version env versions user_agent o w).1
      at none h = inl refl
      at (some app) h =
          inr (i, app, h, inl (printed-world leave (download_app env app user_agent true w)))

  on_dump-Kept : (z : Option ℤ) (w : World) → Kept w (on_dump env versions user_agent z w).1
  unfolding on_dump dump_version
  on_dump-Kept none w = inl refl
  on_dump-Kept (some (negsuc n)) w = inl refl
  on_dump-Kept (some (pos i)) w = at (get_elem? versions i) refl
    where
      at :
          (o : Option AppInfo)
          → get_elem? versions i ≡ o
          → Kept w (dump_version env versions user_agent o w).1
      at none h = inl refl
      at (some app) h =
          inr (
            i,
            app,
            h,
            inr (printed-world again (write_file (xml_name app) (plain app.response) w)),
          )

  on_dump_words-Kept :
      (words : List Text) (w : World) → Kept w (on_dump_words env versions user_agent words w).1
  unfolding on_dump_words
  on_dump_words-Kept [] w = inl refl
  on_dump_words-Kept (word ∷ words) w = on_dump-Kept (atoi word) w

  on_command-Kept :
      (words : List Text) (w : World) → Kept w (on_command env versions user_agent words w).1
  unfolding on_command
  on_command-Kept [] w = inl refl
  on_command-Kept (c ∷ words) w = elim (Bool-cases (text_eq c (codes "?"))) [
    | inl h ↦ rw h (inl refl)
    | inr h ↦ elim (Bool-cases (text_eq c (codes "exit"))) [
      | inl h' ↦ rw (h, h') (inl refl)
      | inr h' ↦ elim (Bool-cases (text_eq c (codes "d") || text_eq c (codes "dump"))) [
        | inl h2 ↦ rw (h, h', h2) (on_dump_words-Kept words w)
        | inr h2 ↦ rw (h, h', h2) (inl refl)
      ]
    ]
  ]

  on_input-Kept : (s : Text) (w : World) → Kept w (on_input env versions user_agent s w).1
  unfolding on_input
  on_input-Kept [] w = inl refl
  on_input-Kept (c ∷ s) w = elim (Bool-cases (is_digit c)) [
    | inl h ↦ rw h (on_index-Kept (atoi (c ∷ s)) w)
    | inr h ↦ rw h (on_command-Kept (fields (c ∷ s)) w)
  ]

  -- A round leaves the world as it is, or its read has named the index of a version, which it
  -- downloads or dumps.
  pub handle_read_lem :
      (r : Option Text) (w : World)
      → let v = (handle_read env versions user_agent r w).1 in
        (v ≡ w)
        ⊎ ((i : ℕ) × (app : AppInfo) × (get_elem? versions i ≡ some app)
            × ((v ≡ (download_app env app user_agent true w).1)
                ⊎ (v ≡ (write_file (xml_name app) (plain app.response) w).1)))
  unfolding handle_read
  handle_read_lem none w = inl refl
  handle_read_lem (some line) w = on_input-Kept (trim_space line) w

  -- A line that holds the decimal number of an index in the list downloads that version, over any
  -- file of its name, and the loop is left if the download returns no error and goes on if it does.
  pub handle_read_index :
      (line : Text) (i : ℕ) (app : AppInfo) (w : World)
      → trim_space line ≡ decimal i
      → i < 2 ^ 63
      → get_elem? versions i ≡ some app
      → handle_read env versions user_agent (some line) w
        ≡ printed leave (download_app env app user_agent true w)
  unfolding handle_read on_input on_index download_version
  handle_read_index line i app w h small at =
      let (c, t, e, digit) = decimal-StartsWithDigit i in
      let number : atoi (c ∷ t) ≡ some (pos i) = rw⁻¹ e (atoi-decimal i small) in
      rw (h, e, digit) (rw number (rw at refl))
