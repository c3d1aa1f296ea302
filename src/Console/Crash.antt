-- ===== src/Console/Crash.antt =====
-- With what `handleInput` may panic.
use ipaversion.Base.{
  ℕ, zero, suc, ◌≡◌, ◌≢◌, ◌⊎◌, inl, inr, refl, Bool-cases, true, ◌||◌, Option, none, some, List, [],
  ◌∷◌, get_elem?,
}
use ipaversion.Base.Int.{ℤ, pos, negsuc}
use ipaversion.Base.Text.{Text, codes, trim_space, fields, atoi, is_digit, text_eq}
use ipaversion.Outcome.{Outcome, ok, err, panic, index_out_of_range}
use ipaversion.App.{AppInfo}
use ipaversion.Download.{download_app}
use ipaversion.Download.Panics.{download_app-Ends}
use ipaversion.Package.Safe.{NoSinfs}
use ipaversion.World.{Env, World, write_file, plain}
use ipaversion.World.Ends.{Ends, Anything, write_file-Ends}
use ipaversion.Console.Input.{
  Next, again, leave, printed, xml_name, download_version, on_index, dump_version, on_dump,
  on_dump_words, on_command, on_input, handle_read, next_read, later_reads, then_loop, handle_input,
}
use ipaversion.Console.Deciding.{read_of, read_of-get_elem?, panicking_round}

-- The line has no word: it is empty or blank.
abbrev pub IsBlank : Text → Type 0
IsBlank line = fields (trim_space line) ≡ []

-- No error is returned, and the message of a panic satisfies `P`.
abbrev Settles : {A : Type 0} → (Text → Type 0) → Outcome A × World → Type 0
Settles P (ok a, w) = Unit
Settles P (err e, w) = ⊥
Settles P (panic m, w) = P m

module _ (env : Env) (versions : List AppInfo) (user_agent : Text) where
  -- The input is the index of a version that has no sinfs.
  abbrev pub LacksSinfs : Text → Type 0
  LacksSinfs input =
      (i : ℕ) × (app : AppInfo) × (atoi input ≡ some (pos i))
      × (get_elem? versions i ≡ some app)
      × (app.item.sinfs ≡ [])

  -- What a panic may come from, for an input.
  abbrev Cause : Text → Text → Type 0
  Cause input message = (message ≡ index_out_of_range) × ((fields input ≡ []) ⊎ LacksSinfs input)

  printed-Settles :
      {A : Type 0} (P : Text → Type 0) (next : Next) (x : Outcome A × World)
      → Ends Anything P x
      → Settles P (printed next x)
  printed-Settles P next (ok a, w) h = tt
  printed-Settles P next (err m, w) h = tt
  printed-Settles P next (panic m, w) h = h

  Ends-map :
      {A : Type 0} (P Q : Text → Type 0) (x : Outcome A × World)
      → ((m : Text) → P m → Q m)
      → Ends Anything P x
      → Ends Anything Q x
  Ends-map P Q (ok a, w) f h = tt
  Ends-map P Q (err m, w) f h = tt
  Ends-map P Q (panic m, w) f h = f m h

  Settles-map :
      {A : Type 0} (P Q : Text → Type 0) (x : Outcome A × World)
      → ((m : Text) → P m → Q m)
      → Settles P x
      → Settles Q x
  Settles-map P Q (ok a, w) f h = tt
  Settles-map P Q (err m, w) f h = elim h [ ]
  Settles-map P Q (panic m, w) f h = f m h

  on_index-Settles :
      (input : Text) (z : Option ℤ) (w : World)
      → atoi input ≡ z
      → Settles (Cause input) (on_index env versions user_agent z w)
  unfolding on_index download_version
  on_index-Settles input none w number = tt
  on_index-Settles input (some (negsuc n)) w number = tt
  on_index-Settles input (some (pos i)) w number = at (get_elem? versions i) refl
    where
      at :
          (o : Option AppInfo)
          → get_elem? versions i ≡ o
          → Settles (Cause input) (download_version env versions user_agent o w)
      at none h = tt
      at (some app) h =
          printed-Settles (Cause input) leave (download_app env app user_agent true w) (
            Ends-map (NoSinfs app.item.sinfs) (Cause input) (download_app env app user_agent true w)
              (λ m p. (p.1, inr (i, app, number, h, p.0))) (download_app-Ends env app user_agent w))

  on_dump_words-Settles :
      (P : Text → Type 0) (words : List Text) (w : World)
      → Settles P (on_dump_words env versions user_agent words w)
  unfolding on_dump_words on_dump dump_version
  on_dump_words-Settles P [] w = tt
  on_dump_words-Settles P (word ∷ words) w = at (atoi word)
    where
      dumped : (o : Option AppInfo) → Settles P (dump_version env versions user_agent o w)
      dumped none = tt
      dumped (some app) =
          printed-Settles P again (write_file (xml_name app) (plain app.response) w)
            (write_file-Ends P (xml_name app) (plain app.response) w)

      at : (z : Option ℤ) → Settles P (on_dump env versions user_agent z w)
      at none = tt
      at (some (negsuc n)) = tt
      at (some (pos i)) = dumped (get_elem? versions i)

  on_command-Settles :
      (input : Text) (words : List Text) (w : World)
      → fields input ≡ words
      → Settles (Cause input) (on_command env versions user_agent words w)
  unfolding on_command
  on_command-Settles input [] w split = (refl, inl split)
  on_command-Settles input (c ∷ words) w split = elim (Bool-cases (text_eq c (codes "?"))) [
    | inl h ↦ rw h tt
    | inr h ↦ elim (Bool-cases (text_eq c (codes "exit"))) [
      | inl h' ↦ rw (h, h') tt
      | inr h' ↦ elim (Bool-cases (text_eq c (codes "d") || text_eq c (codes "dump"))) [
        | inl h2 ↦ rw (h, h', h2) (on_dump_words-Settles (Cause input) words w)
        | inr h2 ↦ rw (h, h', h2) tt
      ]
    ]
  ]

  on_input-Settles :
      (s : Text) (w : World) → Settles (Cause s) (on_input env versions user_agent s w)
  unfolding on_input fields
  on_input-Settles [] w = (refl, inl refl)
  on_input-Settles (c ∷ s) w = elim (Bool-cases (is_digit c)) [
    | inl h ↦ rw h (on_index-Settles (c ∷ s) (atoi (c ∷ s)) w refl)
    | inr h ↦ rw h (on_command-Settles (c ∷ s) (fields (c ∷ s)) w refl)
  ]

  -- What a panic of a round may come from.
  abbrev Blames : Option Text → Text → Type 0
  Blames r message =
      (message ≡ index_out_of_range)
      × (line : Text) × (r ≡ some line)
      × (IsBlank line ⊎ LacksSinfs (trim_space line))

  handle_read-Settles :
      (r : Option Text) (w : World) → Settles (Blames r) (handle_read env versions user_agent r w)
  unfolding handle_read
  handle_read-Settles none w = tt
  handle_read-Settles (some line) w =
      Settles-map (Cause (trim_space line)) (Blames (some line))
        (on_input env versions user_agent (trim_space line) w)
        (λ m (e, cause). (e, line, refl, cause)) (on_input-Settles (trim_space line) w)

  panic-Settles :
      {A : Type 0} (P : Text → Type 0) (x : Outcome A × World) (p : Text) (v : World)
      → Settles P x
      → x ≡ (panic p, v)
      → P p
  panic-Settles P x p v h e = rw e at h

  -- The loop panics only by an index out of range, and only where a line of the input is empty or
  -- blank, or is the index of a version that has no sinfs.
  pub handle_input_panic :
      (rounds : ℕ) (reads : List (Option Text)) (w : World) (message : Text) (v : World)
      → handle_input env versions user_agent rounds reads w ≡ (panic message, v)
      → (message ≡ index_out_of_range)
        × (j : ℕ) × (line : Text) × (get_elem? reads j ≡ some (some line))
        × (IsBlank line ⊎ LacksSinfs (trim_space line))
  handle_input_panic rounds reads w message v e =
      let (j, u, panicked) = panicking_round env versions user_agent rounds reads w message v e in
      let (indexed, line, read, cause) =
        panic-Settles (Blames (read_of j reads)) _ message v
          (handle_read-Settles (read_of j reads) u) panicked in
      (indexed, j, line, read_of-get_elem? j reads read, cause)

  -- The loop returns no error.
  pub handle_input_no_error :
      (rounds : ℕ) (reads : List (Option Text)) (w : World) (m : Text) (v : World)
      → handle_input env versions user_agent rounds reads w ≢ (err m, v)
  unfolding handle_input
  handle_input_no_error zero reads w m v e = cc
  handle_input_no_error (suc rounds) reads w m v e =
      at (handle_read env versions user_agent (next_read reads) w)
        (handle_read-Settles (next_read reads) w) e
        (λ u. handle_input_no_error rounds (later_reads reads) u m v)
    where
      at :
          (x : Outcome Next × World)
          → Settles (Blames (next_read reads)) x
          → then_loop x (handle_input env versions user_agent rounds (later_reads reads))
            ≡ (err m, v)
          → ((u : World)
              → handle_input env versions user_agent rounds (later_reads reads) u ≢ (err m, v))
          → ⊥
      at (ok leave, u) h e ih = cc
      at (ok again, u) h e ih = ih u e
      at (err n, u) h e ih = elim h [ ]
      at (panic p, u) h e ih = cc
