-- ===== src/Console/Lifetime/Finishing.antt =====
-- From each point of a capturing run to its end, by steps of the main goroutine and of the flows.
use ipaversion.Base.{
  ℕ, ◌+◌, ◌≡◌, ◌≢◌, inl, inr, refl, ap, ◌∙◌, Bool, true, false, Bool-cases, Option, List, [], ◌∷◌,
}
use ipaversion.Base.Text.{Text}
use ipaversion.Outcome.{Outcome, ok, err, panic, Result, done, failed}
use ipaversion.App.{AppInfo}
use ipaversion.World.{World}
use ipaversion.Addon.{Session, on_request}
use ipaversion.Addon.Once.{serve, locked, handle_buy_request-Signals}
use ipaversion.Addon.Race.{Stage}
use ipaversion.Addon.Race.Alone.{finish, runs_out}
use ipaversion.Addon.Race.Exclusion.{IsBuy, Inv, free, taken, Reach-Inv}
use ipaversion.Console.Proxy.{Shell}
use ipaversion.Console.Input.{handle_input}
use ipaversion.Console.Process.{Ending, returned, crashed, reading, input_ended, recovered_main}
use ipaversion.Console.Lifetime.{
  Exit, completed, panicked, Point, begun, proxied, notified, serving, released, asking, closing,
  exited, Life, unlock_then, create_then, receive_then, proceed, system_of, Lives, Leads, stays,
  Leads-Lives, Leads-trans,
}
use ipaversion.Console.Lifetime.Ready.{Known, IsReady-lock}
use ipaversion.Console.Lifetime.Asked.{Lives-IsKnown}
use ipaversion.Console.Lifetime.Alone.{Setting, first, won, input_shell, serve-won, Winner, Asks}
use ipaversion.Console.Lifetime.Same.{Same}
use ipaversion.Console.Lifetime.Sequential.{EndsAs, returns, crashes, Lives-IsSame}
use ipaversion.Console.Lifetime.Onward.{
  StandsAt, has_returned, has_crashed, still_reads, main_at, main_runs, session_of, flow_runs,
  rounds-Reaches,
}

-- `main` has ended by itself.
abbrev pub HasEnded : Point → Type 0
HasEnded p = (x : Exit) × (e : Ending) × (p ≡ exited x) × EndsAs x e

StandsAt-HasEnded : {e : Ending} {p : Point} → StandsAt e p → e ≢ reading → HasEnded p
StandsAt-HasEnded has_returned ne = (completed, returned, refl, returns)
StandsAt-HasEnded (has_crashed p) ne = (panicked p, crashed p, refl, crashes p)
StandsAt-HasEnded (still_reads versions agent later') ne = absurd (ne refl)

recovered_ne_reading :
    (b : Bool) (s : Shell) (y : Outcome Bool × World)
    → y.0 ≢ ok false
    → (recovered_main b (input_ended s y)).0 ≢ reading
unfolding recovered_main input_ended
recovered_ne_reading true s (ok true, w) ne h = cc
recovered_ne_reading false s (ok true, w) ne h = cc
recovered_ne_reading b s (ok false, w) ne h = ne refl
recovered_ne_reading true s (err e, w) ne h = cc
recovered_ne_reading false s (err e, w) ne h = cc
recovered_ne_reading true s (panic p, w) ne h = cc
recovered_ne_reading false s (panic p, w) ne h = cc

module _ (g : Setting) where
  open g use {env, f, new_proxy, reads, flows, w}

  abbrev Run : Life → Type 0
  Run c = Lives env f new_proxy reads flows w c

  abbrev GoesOn : Life → Life → Type 0
  GoesOn c d = Leads env f new_proxy reads flows c d

  -- The run goes on to its end.
  abbrev pub Finishes : Life → Type 0
  Finishes c = (d : Life) × Leads env f new_proxy reads flows c d × HasEnded d.point

  after-Finishes : {c d : Life} → GoesOn c d → Finishes d → Finishes c
  after-Finishes h (e, k, ended) = (e, Leads-trans env f new_proxy reads flows h k, ended)

  goes_on : {c d : Life} → Run c → GoesOn c d → Run d
  goes_on l h = Leads-Lives env f new_proxy reads flows l h

  -- The next step of `main` from the point `p`.
  main_next : {c : Life} (p : Point) → c.point ≡ p → GoesOn c (main_at g p c)
  main_next {c} p at = main_runs g c p stays at

  ready_at : {c : Life} (p : Point) → Run c → c.point ≡ p → Known env flows (first g) p c
  ready_at {c} p l at = rw (← at) (Lives-IsKnown env f new_proxy reads flows w l)

  closing-Finishes : {c : Life} → Run c → c.point ≡ closing → Finishes c
  unfolding proceed unlock_then
  closing-Finishes {c} l at =
      let held = IsReady-lock env flows (first g) c (ready_at closing l at) in
      (main_at g closing c, main_next closing at, rw held (completed, returned, refl, returns))

  -- The flow that works, or else the flow `k`, runs to its end and sends a value.
  sent :
      (k : ℕ) (c : Life)
      → IsBuy (flows k)
      → Inv env flows (first g) (system_of c)
      → (j : ℕ) × IsBuy (flows j) × (finish env (flows j) (c.stage j) (session_of g c) ≡ won g j)
  unfolding finish serve
  sent k c buy (free kept idle fresh) =
      (k, buy, rw (fresh k buy) (ap (on_request env (flows k)) kept ∙ serve-won g k buy))
  sent k c buy (taken j buys held gone idle end') = (j, buys, end')

  Lives-Same : {c : Life} (p : Point) → Run c → c.point ≡ p → Same g p c
  Lives-Same {c} p l at = rw (← at) (Lives-IsSame g l)

  looped_from :
      (k : ℕ) (versions : List AppInfo) (agent : Text) (later' : List (Option Text)) (s : Shell)
      (a : Asks g k versions agent later' s) (m : ℕ)
      → handle_input env
          (won g k).addon.history_versions
          (won g k).addon.client_user_agent
          (a.rounds + m)
          reads
          (input_shell g k).world
        ≡ handle_input env versions agent m later' s.world
  looped_from k versions agent later' s a m = rw (← a.listed, ← a.signed) (a.looped m)

  -- The loop of `handleInput` over what a winner leaves ends in enough rounds.
  abbrev pub LoopEnds : Winner g → Type 0
  LoopEnds x =
      (n : ℕ) × ((m : ℕ)
        → (handle_input env (won g x.flow).addon.history_versions
            (won g x.flow).addon.client_user_agent (m + n) reads (input_shell g x.flow).world).0
          ≢ ok false)

  module _ (k : ℕ) (buys : IsBuy (flows k)) (created : new_proxy ≡ done tt)
      (loop_ends : (x : Winner g) → LoopEnds x) where
    asking-Finishes :
        {c : Life} (versions : List AppInfo) (agent : Text) (later' : List (Option Text))
        → Run c
        → c.point ≡ asking versions agent later'
        → Finishes c
    asking-Finishes {c} versions agent later' l at =
        let (x, a) = Lives-Same (asking versions agent later') l at in
        let (n, decided) = loop_ends x in
        let known = ready_at (asking versions agent later') l at in
        let (d, h, agrees) =
          rounds-Reaches g c n versions agent later' c stays at
            (IsReady-lock env flows (first g) c known.0) in
        (
          d,
          h,
          StandsAt-HasEnded agrees.1 (
              recovered_ne_reading f.skip_proxy c.shell _ (λ running. decided a.rounds (
                ap (λ (y : Outcome Bool × World). y.0)
                  (looped_from x.flow versions agent later' c.shell a n)
                ∙ running))),
        )

    released-Finishes : {c : Life} → Run c → c.point ≡ released → Finishes c
    unfolding proceed
    released-Finishes {c} l at =
        let h = main_next released at in
        after-Finishes h (
          asking-Finishes c.addon.history_versions c.addon.client_user_agent reads (goes_on l h)
            refl)

    received :
        (bs : List Bool) (b : Bool) (c : Life) → bs ≡ b ∷ [] → (receive_then bs c).point ≡ released
    unfolding receive_then
    received [] b c h = cc
    received (x ∷ bs) b c h = refl

    serving-Finishes : {c : Life} → Run c → c.point ≡ serving → Finishes c
    unfolding proceed
    serving-Finishes {c} l at =
        let (j, buys', rest) =
          sent k c buys (Reach-Inv env flows (first g) refl (ready_at serving l at)) in
        let (n, over') = runs_out env (flows j) (c.stage j) (session_of g c) in
        let (d, h, at', same, _) = flow_runs g c j n c stays at in
        let gone = same ∙ ap (λ (x : Stage × Session). x.1) over' ∙ rest in
        let (b, signals, _) = handle_buy_request-Signals env (flows j) (locked (first g)) in
        let h' = Leads-trans env f new_proxy reads flows h (main_next serving at') in
        after-Finishes h' (
          released-Finishes (goes_on l h')
            (received d.addon.done b d (ap (λ (t : Session). t.addon.done) gone ∙ signals)))

    created_point :
        (r : Result (Unit {0})) (c : Life) → r ≡ done tt → (create_then r c).point ≡ serving
    unfolding create_then
    created_point (done u) c h = refl
    created_point (failed e) c h = cc

    notified-Finishes : {c : Life} → Run c → c.point ≡ notified → Finishes c
    unfolding proceed
    notified-Finishes {c} l at =
        let h = main_next notified at in
        after-Finishes h (serving-Finishes (goes_on l h) (created_point new_proxy c created))

    proxied-Finishes : {c : Life} → Run c → c.point ≡ proxied → Finishes c
    unfolding proceed
    proxied-Finishes l at =
        let h = main_next proxied at in after-Finishes h (notified-Finishes (goes_on l h) refl)

    begun-Finishes : {c : Life} → Run c → c.point ≡ begun → Finishes c
    unfolding proceed
    begun-Finishes {c} l at =
        let h = main_next begun at in
        after-Finishes h (elim (Bool-cases f.skip_proxy) [
          | inl skip ↦ notified-Finishes (goes_on l h) (rw skip)
          | inr shown ↦ proxied-Finishes (goes_on l h) (rw shown)
        ])

    pub point-Finishes :
        {c : Life} (p : Point) → Run c → c.point ≡ p → ((x : Exit) → p ≢ exited x) → Finishes c
    point-Finishes begun l at on = begun-Finishes l at
    point-Finishes proxied l at on = proxied-Finishes l at
    point-Finishes notified l at on = notified-Finishes l at
    point-Finishes serving l at on = serving-Finishes l at
    point-Finishes released l at on = released-Finishes l at
    point-Finishes (asking versions agent later') l at on =
        asking-Finishes versions agent later' l at
    point-Finishes closing l at on = closing-Finishes l at
    point-Finishes (exited x) l at on = absurd (on x refl)
