-- ===== src/Console/Lifetime/Ended.antt =====
-- Why an interleaved run that `main` itself ends is ended.
use ipaversion.Base.{ℕ, ◌≡◌, ◌≢◌, ◌⊎◌, inl, inr, refl, ap, sym, Bool, true, false, some, get_elem?}
use ipaversion.Base.Text.{Text, trim_space}
use ipaversion.Outcome.{Outcome, ok, err, panic}
use ipaversion.World.{World}
use ipaversion.Addon.Race.Exclusion.{IsBuy}
use ipaversion.Console.Proxy.{Shell}
use ipaversion.Console.Input.{handle_input}
use ipaversion.Console.Process.{Ending, returned, reading, input_ended, recovered_main, after_done}
use ipaversion.Console.Left.{AsksExit, Sold, handle_input_left}
use ipaversion.Console.Crash.{IsBlank, LacksSinfs, handle_input_panic, handle_input_no_error}
use ipaversion.Console.Lifetime.{Exit, exited, Life, Lives}
use ipaversion.Console.Lifetime.Alone.{Setting, won, input_shell}
use ipaversion.Console.Lifetime.Sequential.{EndsAs, EndsAs-ends, Lives-Captures}

module _ (g : Setting) where
  open g use {env, f, new_proxy, reads, flows, w}

  -- A line that ends the loop over the versions of the flow `k`, with the world that is left.
  abbrev pub EndsLoop : ℕ → Text → World → Type 0
  EndsLoop k line v =
      AsksExit line
      ⊎ (Sold env (won g k).addon.history_versions (won g k).addon.client_user_agent
            (trim_space line) v
          ⊎ (IsBlank line
              ⊎ LacksSinfs env (won g k).addon.history_versions (won g k).addon.client_user_agent
                  (trim_space line)))

  abbrev pub Reason : ℕ → World → Type 0
  Reason k v = (j : ℕ) × (line : Text) × (get_elem? reads j ≡ some (some line)) × EndsLoop k line v

  recovered_as :
      (b : Bool) (s t : Shell) (e : Ending)
      → recovered_main b (returned, s) ≡ (e, t)
      → t.world ≡ s.world
  unfolding recovered_main
  recovered_as true s t e h = ap (λ (x : Ending × Shell). x.1.world) (sym h)
  recovered_as false s t e h = ap (λ (x : Ending × Shell). x.1.world) (sym h)

  recovered_reading :
      (b : Bool) (s t : Shell) (e : Ending) → recovered_main b (reading, s) ≡ (e, t) → e ≡ reading
  unfolding recovered_main
  recovered_reading true s t e h = ap (λ (x : Ending × Shell). x.0) (sym h)
  recovered_reading false s t e h = ap (λ (x : Ending × Shell). x.0) (sym h)

  loop_ended :
      (k n : ℕ) (s : Shell) (y : Outcome Bool × World) (e : Ending)
      → e ≢ reading
      → handle_input env
          (won g k).addon.history_versions
          (won g k).addon.client_user_agent
          n
          reads
          (input_shell g k).world
        ≡ y
      → recovered_main f.skip_proxy (input_ended (input_shell g k) y) ≡ (e, s)
      → Reason k s.world
  unfolding input_ended
  loop_ended k n s (ok true, v) e stops looped h =
      let (j, line, read, why) =
        handle_input_left env _ _ n reads (input_shell g k).world v looped in
      let why' : AsksExit line ⊎ Sold env _ _ (trim_space line) s.world =
        rw (recovered_as f.skip_proxy _ s e h) why in
      (j, line, read, elim why' [ inl a ↦ inl a | inr b ↦ inr (inl b) ])
  loop_ended k n s (ok false, v) e stops looped h =
      absurd (stops (recovered_reading f.skip_proxy _ s e h))
  loop_ended k n s (err m, v) e stops looped h =
      absurd (handle_input_no_error env _ _ n reads _ m v looped)
  loop_ended k n s (panic p, v) e stops looped h =
      let (_, j, line, read, why) = handle_input_panic env _ _ n reads _ p v looped in
      (j, line, read, inr (inr why))

  -- Whatever order the goroutines' steps have: if the run ends, and neither a signal nor `log.Fatal`
  -- ends it, then a line of the input asked for it by `exit`, or was the index of a version of the
  -- winner's whose package is there, or was one that the loop panics with: empty, blank, or the index
  -- of a version without sinfs.
  pub ended_lem :
      {c : Life} {x : Exit} {e : Ending}
      → Lives env f new_proxy reads flows w c
      → c.point ≡ exited x
      → EndsAs x e
      → (k : ℕ) × IsBuy (flows k) × Reason k c.shell.world
  unfolding after_done
  ended_lem {c} {x} {e} l at ends =
      let (winner, n, same) = Lives-Captures g l at ends in
      (winner.flow, winner.buys, loop_ended winner.flow n c.shell _ e (EndsAs-ends ends) refl same)
