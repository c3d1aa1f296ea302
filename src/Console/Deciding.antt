-- ===== src/Console/Deciding.antt =====
-- How `handleInput` ends is decided by one of its rounds.
use ipaversion.Base.{
  ℕ, zero, suc, ◌≡◌, ◌≢◌, refl, ap, ◌∙◌, sym, Bool, true, false, Option, none, some, List, [], ◌∷◌,
  get_elem?,
}
use ipaversion.Base.Text.{Text}
use ipaversion.Outcome.{Outcome, ok, err, panic}
use ipaversion.App.{AppInfo}
use ipaversion.World.{Env, World, Action}
use ipaversion.Console.Input.{
  Next, again, leave, handle_read, next_read, later_reads, then_loop, handle_input,
}

-- The j-th round's read.
abbrev pub read_of : ℕ → List (Option Text) → Option Text
read_of zero reads = next_read reads
read_of (suc j) reads = read_of j (later_reads reads)

none_read : (j : ℕ) → read_of j [] ≡ none
none_read zero = refl
none_read (suc j) = none_read j

-- A line that a round reads is one of the reads.
pub read_of-get_elem? :
    (j : ℕ) (reads : List (Option Text)) {line : Text}
    → read_of j reads ≡ some line
    → get_elem? reads j ≡ some (some line)
read_of-get_elem? j [] e = (let h = none_read j in cc)
read_of-get_elem? zero (r ∷ reads) e = ap some e
read_of-get_elem? (suc j) (r ∷ reads) e = read_of-get_elem? j reads e

abbrev stop : Action Bool
stop w = (ok false, w)

module _ (env : Env) (versions : List AppInfo) (user_agent : Text) where
  abbrev Decides : Outcome Bool × World → List (Option Text) → Type 0
  Decides y reads =
      (j : ℕ) × (u : World) × (then_loop (handle_read env versions user_agent (read_of j reads) u)
          stop
        ≡ y)

  -- The loop ends as one of its rounds says, unless it still runs.
  deciding_round :
      (rounds : ℕ) (reads : List (Option Text)) (w : World) (y : Outcome Bool × World)
      → y.0 ≢ ok false
      → handle_input env versions user_agent rounds reads w ≡ y
      → Decides y reads
  unfolding handle_input
  deciding_round zero reads w y ends e =
      absurd (ends (sym (ap (λ (x : Outcome Bool × World). x.0) e)))
  deciding_round (suc rounds) reads w y ends e =
      at (handle_read env versions user_agent (next_read reads) w) refl e
        (λ u f. deciding_round rounds (later_reads reads) u y ends f)
    where
      at :
          (x : Outcome Next × World)
          → handle_read env versions user_agent (next_read reads) w ≡ x
          → then_loop x (handle_input env versions user_agent rounds (later_reads reads)) ≡ y
          → ((u : World)
              → handle_input env versions user_agent rounds (later_reads reads) u ≡ y
              → Decides y (later_reads reads))
          → Decides y reads
      at (ok leave, u) h e ih = (0, w, ap (λ x. then_loop x stop) h ∙ e)
      at (ok again, u) h e ih = let (j, t, d) = ih u e in (suc j, t, d)
      at (err m, u) h e ih = (0, w, ap (λ x. then_loop x stop) h ∙ e)
      at (panic p, u) h e ih = (0, w, ap (λ x. then_loop x stop) h ∙ e)

  left_by :
      (x : Outcome Next × World) (v : World) → then_loop x stop ≡ (ok true, v) → x ≡ (ok leave, v)
  left_by (ok leave, u) v e = ap (λ (y : Outcome Bool × World). (ok leave, y.1)) e
  left_by (ok again, u) v e = cc
  left_by (err m, u) v e = cc
  left_by (panic p, u) v e = cc

  panicked_by :
      (x : Outcome Next × World) (p : Text) (v : World)
      → then_loop x stop ≡ (panic p, v)
      → x ≡ (panic p, v)
  panicked_by (ok leave, u) p v e = cc
  panicked_by (ok again, u) p v e = cc
  panicked_by (err m, u) p v e = cc
  panicked_by (panic q, u) p v e =
      let same : q ≡ p = cc in
      ap (λ (y : Outcome Bool × World). (panic q, y.1)) e ∙ ap (λ m. (panic m, v)) same

  -- A loop that is left has had a round that leaves it.
  pub leaving_round :
      (rounds : ℕ) (reads : List (Option Text)) (w v : World)
      → handle_input env versions user_agent rounds reads w ≡ (ok true, v)
      → (j : ℕ) × (u : World) × (handle_read env versions user_agent (read_of j reads) u
          ≡ (ok leave, v))
  leaving_round rounds reads w v e =
      let (j, u, d) = deciding_round rounds reads w (ok true, v) (λ q. cc) e in
      (j, u, left_by (handle_read env versions user_agent (read_of j reads) u) v d)

  -- A loop that panics has had a round that does.
  pub panicking_round :
      (rounds : ℕ) (reads : List (Option Text)) (w : World) (p : Text) (v : World)
      → handle_input env versions user_agent rounds reads w ≡ (panic p, v)
      → (j : ℕ) × (u : World) × (handle_read env versions user_agent (read_of j reads) u
          ≡ (panic p, v))
  panicking_round rounds reads w p v e =
      let (j, u, d) = deciding_round rounds reads w (panic p, v) (λ q. cc) e in
      (j, u, panicked_by (handle_read env versions user_agent (read_of j reads) u) p v d)
