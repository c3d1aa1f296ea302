-- ===== src/Console/Lifetime/Onward.antt =====
-- How an interleaved run goes on if one goroutine alone takes steps: the rounds of `handleInput`, and
-- the steps of a flow.
use ipaversion.Base.{ℕ, zero, suc, ◌≡◌, refl, ap, ◌∙◌, Bool, true, false, Option, List}
use ipaversion.Base.Text.{Text}
use ipaversion.Outcome.{Outcome, ok, err, panic}
use ipaversion.App.{AppInfo}
use ipaversion.World.{World}
use ipaversion.Console.Proxy.{Shell}
use ipaversion.Console.Input.{
  Next, again, leave, handle_read, next_read, later_reads, then_loop, handle_input,
}
use ipaversion.Console.Process.{Ending, returned, crashed, reading, input_ended, recovered_main}
use ipaversion.Console.Lifetime.{
  completed, panicked, Point, asking, closing, exited, Life, unlock_then, unwind, after_round,
  proceed, flow_step, serving, Leads, main_goes, flow_goes,
}
use ipaversion.Addon.{Session}
use ipaversion.Addon.Race.{run, advance}
use ipaversion.Addon.Race.Exclusion.{set_stage_self}
use ipaversion.Console.Lifetime.Alone.{Setting}

-- Where an interleaved run is that has come as far as the sequential one.
pub data StandsAt : Ending → Point → Type 0 where
  has_returned : StandsAt returned (exited completed)
  has_crashed : (p : Text) → StandsAt (crashed p) (exited (panicked p))
  still_reads :
      (versions : List AppInfo) (agent : Text) (later' : List (Option Text))
      → StandsAt reading (asking versions agent later')

-- The state agrees with what the sequential model returns.
abbrev pub Matches : Ending × Shell → Life → Type 0
Matches x d = (d.shell ≡ x.1) × StandsAt x.0 d.point

input_ended-world :
    (s : Shell) (v : World) (x : Outcome Bool × World)
    → input_ended (record s { world = v }) x ≡ input_ended s x
unfolding input_ended
input_ended-world s v (ok true, w) = refl
input_ended-world s v (ok false, w) = refl
input_ended-world s v (err e, w) = refl
input_ended-world s v (panic p, w) = refl

reading-Matches :
    (b : Bool) (versions : List AppInfo) (agent : Text) (later' : List (Option Text)) (c : Life)
    → c.point ≡ asking versions agent later'
    → Matches (recovered_main b (reading, c.shell)) c
unfolding recovered_main
reading-Matches true versions agent later' c at = (refl, rw at (still_reads versions agent later'))
reading-Matches false versions agent later' c at = (refl, rw at (still_reads versions agent later'))

returned-Matches :
    (b : Bool) (c : Life)
    → c.addon.lock ≡ true
    → Matches (recovered_main b (returned, c.shell)) (unlock_then completed c)
unfolding recovered_main unlock_then
returned-Matches true c held = (refl, rw held has_returned)
returned-Matches false c held = (refl, rw held has_returned)

crashed-Matches :
    (b : Bool) (p : Text) (c : Life)
    → c.addon.lock ≡ true
    → Matches (recovered_main b (crashed p, c.shell)) (unwind b p c)
unfolding recovered_main unwind unlock_then
crashed-Matches true p c held = (refl, rw held (has_crashed p))
crashed-Matches false p c held = (rw held refl, rw held has_returned)

module _ (g : Setting) where
  open g use {env, f, new_proxy, reads}

  abbrev pub main_at : Point → Life → Life
  main_at p c = proceed env f.skip_proxy new_proxy reads p c

  abbrev pub InputFrom : List AppInfo → Text → ℕ → List (Option Text) → Shell → Ending × Shell
  InputFrom versions agent n later' s =
      recovered_main f.skip_proxy (input_ended s (handle_input env versions agent n later' s.world))

  abbrev pub session_of : Life → Session
  session_of c = record { addon = c.addon; world = c.shell.world }

module _ (g : Setting) (o : Life) where
  open g use {env, f, new_proxy, reads, flows}

  -- A run that has gone on from `o`.
  abbrev pub Run : Life → Type 0
  Run c = Leads env f new_proxy reads flows o c

  pub main_runs : {c : Life} (p : Point) → Run c → c.point ≡ p → Run (main_at g p c)
  main_runs p l at = rw (← at) (main_goes l)

  -- Some run goes on from here to a state that agrees.
  abbrev Reaches : Ending × Shell → Type 0
  Reaches x = (d : Life) × Run d × Matches x d

  leaves-Reaches :
      (c : Life)
      → Run c
      → c.point ≡ closing
      → c.addon.lock ≡ true
      → Reaches (recovered_main f.skip_proxy (returned, c.shell))
  unfolding proceed
  leaves-Reaches c l at held =
      (unlock_then completed c, main_runs closing l at, returned-Matches f.skip_proxy c held)

  after_round-Reaches :
      (n : ℕ) (versions : List AppInfo) (agent : Text) (later' : List (Option Text)) (c : Life)
      (y : Outcome Next × World)
      → ((d : Life)
          → Run d
          → d.point ≡ asking versions agent later'
          → d.addon.lock ≡ true
          → Reaches (InputFrom g versions agent n later' d.shell))
      → c.addon.lock ≡ true
      → Run (after_round f.skip_proxy versions agent later' c y)
      → Reaches (
          recovered_main f.skip_proxy
            (input_ended c.shell (then_loop y (handle_input env versions agent n later'))))
  unfolding after_round input_ended
  after_round-Reaches n versions agent later' c (ok leave, v) ih held l =
      leaves-Reaches _ l refl held
  after_round-Reaches n versions agent later' c (ok again, v) ih held l =
      rw (← input_ended-world c.shell v (handle_input env versions agent n later' v))
        (ih _ l refl held)
  after_round-Reaches n versions agent later' c (err e, v) ih held l = leaves-Reaches _ l refl held
  after_round-Reaches n versions agent later' c (panic p, v) ih held l = (
    _,
    l,
    crashed-Matches f.skip_proxy p (record c { shell = record c.shell { world = v } }) held,
  )

  pub rounds-Reaches :
      (n : ℕ) (versions : List AppInfo) (agent : Text) (later' : List (Option Text)) (c : Life)
      → Run c
      → c.point ≡ asking versions agent later'
      → c.addon.lock ≡ true
      → Reaches (InputFrom g versions agent n later' c.shell)
  unfolding handle_input input_ended proceed
  rounds-Reaches zero versions agent later' c l at held =
      (c, l, reading-Matches f.skip_proxy versions agent later' c at)
  rounds-Reaches (suc n) versions agent later' c l at held =
      after_round-Reaches n versions agent (later_reads later') c
        (handle_read env versions agent (next_read later') c.shell.world)
        (rounds-Reaches n versions agent (later_reads later')) held
        (main_runs (asking versions agent later') l at)

  -- The goroutine of the flow `k` takes `m` steps, and no other one takes any.
  pub flow_runs :
      (k m : ℕ) (c : Life)
      → Run c
      → c.point ≡ serving
      → (d : Life) × Run d
        × (d.point ≡ serving)
        × (session_of g d ≡ (run env (flows k) m (c.stage k, session_of g c)).1)
        × ((v : World) → record d.shell { world = v } ≡ record c.shell { world = v })
  unfolding run flow_step
  flow_runs k zero c l at = (c, l, at, refl, λ v. refl)
  flow_runs k (suc m) c l at =
      let (st, s) = advance env (flows k) (c.stage k) (session_of g c) in
      let (e, l', at', same, kept) =
        flow_runs k m (flow_step env flows k c) (flow_goes l k (rw at tt)) at in
      let one_on = ap (λ x. (run env (flows k) m (x, s)).1) (set_stage_self c.stage k st) in
      (e, l', at', same ∙ one_on, kept)
