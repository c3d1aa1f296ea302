-- ===== src/Console/Left.antt =====
-- Why the loop of `handleInput` is left.
use ipaversion.Base.{
  ℕ, ◌≡◌, ◌≢◌, ◌⊎◌, inl, inr, refl, ap, Bool-cases, true, false, ◌||◌, Option, none, some, List, [],
  ◌∷◌, get_elem?, arith,
}
use ipaversion.Base.Int.{ℤ, pos, negsuc}
use ipaversion.Base.Text.{Text, codes, trim_space, fields, atoi, is_digit, text_eq}
use ipaversion.Outcome.{Outcome, ok, err, panic}
use ipaversion.App.{AppInfo}
use ipaversion.Download.{download_app}
use ipaversion.Download.Packaged.{IsPackaged, download_app-Yields}
use ipaversion.World.{Env, World, write_file, plain}
use ipaversion.World.Yields.{Yields}
use ipaversion.Console.Input.{
  Next, again, leave, printed, xml_name, download_version, on_index, dump_version, on_dump,
  on_dump_words, on_command, on_input, handle_read, handle_input,
}
use ipaversion.Console.Deciding.{read_of, read_of-get_elem?, leaving_round}

-- The first word of the line is `exit`, and it is no number.
abbrev pub AsksExit : Text → Type 0
AsksExit line =
    (c : ℕ) × (s : Text) × (word : Text) × (words : List Text) × (trim_space line ≡ c ∷ s)
    × (is_digit c ≡ false)
    × (fields (c ∷ s) ≡ word ∷ words)
    × (text_eq word (codes "exit") ≡ true)

atoi-positive : (c : ℕ) (s : Text) (n : ℕ) → is_digit c ≡ true → atoi (c ∷ s) ≢ some (negsuc n)
unfolding atoi is_digit
atoi-positive c s n digit h = ground arith

module _ (env : Env) (versions : List AppInfo) (user_agent : Text) where
  -- The version whose index the input is was downloaded: the package is there.
  abbrev pub Sold : Text → World → Type 0
  Sold input v =
      (i : ℕ) × (app : AppInfo) × (atoi input ≡ some (pos i))
      × (get_elem? versions i ≡ some app)
      × (n : ℕ) × IsPackaged env n app user_agent v

  printed_left :
      {A : Type 0} (Q : A → World → Type 0) (x : Outcome A × World) (v : World)
      → Yields Q x
      → printed leave x ≡ (ok leave, v)
      → (a : A) × Q a v
  printed_left Q (ok a, w) v q e = (a, rw⁻¹ (ap (λ (y : Outcome Next × World). y.1) e) q)
  printed_left Q (err m, w) v q e = cc
  printed_left Q (panic p, w) v q e = cc

  printed_again : {A : Type 0} (x : Outcome A × World) (v : World) → printed again x ≢ (ok leave, v)
  printed_again (ok a, w) v e = cc
  printed_again (err m, w) v e = cc
  printed_again (panic p, w) v e = cc

  dumped :
      (o : Option AppInfo) (w v : World) → dump_version env versions user_agent o w ≢ (ok leave, v)
  unfolding dump_version
  dumped none w v e = cc
  dumped (some app) w v e = printed_again (write_file (xml_name app) (plain app.response) w) v e

  on_index_left :
      (input : Text) (z : Option ℤ) (w v : World)
      → atoi input ≡ z
      → ((n : ℕ) → z ≢ some (negsuc n))
      → on_index env versions user_agent z w ≡ (ok leave, v)
      → Sold input v
  unfolding on_index download_version
  on_index_left input none w v number sign e = cc
  on_index_left input (some (negsuc n)) w v number sign e = absurd (sign n refl)
  on_index_left input (some (pos i)) w v number sign e = at (get_elem? versions i) refl e
    where
      at :
          (o : Option AppInfo)
          → get_elem? versions i ≡ o
          → download_version env versions user_agent o w ≡ (ok leave, v)
          → Sold input v
      at none h e = cc
      at (some app) h e =
          let (a, downloaded) =
            printed_left _ (download_app env app user_agent true w) v
              (download_app-Yields env w.calls app user_agent true w refl (inl refl)) e in
          (i, app, number, h, w.calls, downloaded.2)

  on_dump_words_left :
      (words : List Text) (w v : World)
      → on_dump_words env versions user_agent words w ≢ (ok leave, v)
  unfolding on_dump_words on_dump
  on_dump_words_left [] w v e = cc
  on_dump_words_left (word ∷ words) w v e = at (atoi word) e
    where
      at : (z : Option ℤ) → on_dump env versions user_agent z w ≢ (ok leave, v)
      at none e = cc
      at (some (negsuc n)) e = cc
      at (some (pos i)) e = dumped (get_elem? versions i) w v e

  on_command_left :
      (words : List Text) (w v : World)
      → on_command env versions user_agent words w ≡ (ok leave, v)
      → (word : Text) × (rest : List Text) × (words ≡ word ∷ rest)
        × (text_eq word (codes "exit") ≡ true)
  unfolding on_command
  on_command_left [] w v e = cc
  on_command_left (c ∷ words) w v e = elim (Bool-cases (text_eq c (codes "?"))) [
    | inl h ↦ (let f = rw h at e in cc)
    | inr h ↦ elim (Bool-cases (text_eq c (codes "exit"))) [
      | inl h' ↦ (c, words, refl, h')
      | inr h' ↦ elim (Bool-cases (text_eq c (codes "d") || text_eq c (codes "dump"))) [
        | inl h2 ↦ absurd (on_dump_words_left words w v (rw (h, h', h2) at e))
        | inr h2 ↦ (let f = rw (h, h', h2) at e in cc)
      ]
    ]
  ]

  -- What a round that leaves the loop has read.
  abbrev Leaves : Option Text → World → Type 0
  Leaves r v = (line : Text) × (r ≡ some line) × (AsksExit line ⊎ Sold (trim_space line) v)

  handle_read_left :
      (r : Option Text) (w v : World)
      → handle_read env versions user_agent r w ≡ (ok leave, v)
      → Leaves r v
  unfolding handle_read on_input
  handle_read_left none w v e = cc
  handle_read_left (some line) w v e = at (trim_space line) refl e
    where
      at :
          (s : Text)
          → trim_space line ≡ s
          → on_input env versions user_agent s w ≡ (ok leave, v)
          → Leaves (some line) v
      at [] h e = cc
      at (c ∷ s) h e = elim (Bool-cases (is_digit c)) [
        | inl digit ↦ (
          line,
          refl,
          inr (
              rw h (
                on_index_left (c ∷ s) (atoi (c ∷ s)) w v refl (λ n. atoi-positive c s n digit)
                  (rw digit at e))),
        )
        | inr other ↦
            let (word, words, split, is_exit) =
              on_command_left (fields (c ∷ s)) w v (rw other at e) in
            (line, refl, inl (c, s, word, words, h, other, split, is_exit))
      ]

  -- The loop is left only where a line asks for it by `exit`, or where the version whose index a line
  -- is has just been downloaded: the server has sent an archive, and the package holds its files, the
  -- metadata and more behind them, unfinished where the dropped error of a close was one, and neither
  -- temporary file is there.
  pub handle_input_left :
      (rounds : ℕ) (reads : List (Option Text)) (w v : World)
      → handle_input env versions user_agent rounds reads w ≡ (ok true, v)
      → (j : ℕ) × (line : Text) × (get_elem? reads j ≡ some (some line))
        × (AsksExit line ⊎ Sold (trim_space line) v)
  handle_input_left rounds reads w v e =
      let (j, u, left) = leaving_round env versions user_agent rounds reads w v e in
      let (line, read, reason) = handle_read_left (read_of j reads) u v left in
      (j, line, read_of-get_elem? j reads read, reason)
