-- ===== src/Console/Lifetime/Asked.antt =====
-- What `handleInput` works on, whatever order the goroutines' steps have, and the deferred unlock.
use ipaversion.Base.{
  ℕ, ◌≡◌, ◌≢◌, inl, inr, refl, ap, Bool, true, false, Bool-cases, Option, List, [], ◌∷◌,
  if◌then◌else◌,
}
use ipaversion.Base.Text.{Text}
use ipaversion.Outcome.{Result}
use ipaversion.App.{AppInfo}
use ipaversion.World.{Env, World, Request}
use ipaversion.Addon.{Session, handle_buy_request}
use ipaversion.Addon.Once.{locked}
use ipaversion.Addon.Race.{pick, Reach, start, later}
use ipaversion.Addon.Race.Exclusion.{IsBuy}
use ipaversion.Addon.Race.Silence.{Reach_sent}
use ipaversion.Console.Proxy.{with_proxy, turn_on_proxy, turn_off_proxy}
use ipaversion.Console.Input.{handle_read, next_read, later_reads}
use ipaversion.Console.Process.{Flags, fresh_addon}
use ipaversion.Console.Lifetime.{
  completed, unlocked_twice, Point, begun, proxied, notified, serving, released, asking, closing,
  exited, Life, system_of, receive_then, proceed, handle_signal, signal, IsServed, flow_step,
  main_moves, flow_moves, signal_comes, signal_lost, server_fails, Lives, born, moved,
}
use ipaversion.Console.Lifetime.Ready.{
  IsReady-lock, Known, IsKnown, IsReady-with, unlock_then-IsKnown, after_round-IsKnown,
  create_then-IsKnown, ready_step, flow_step-IsReady,
}

module _ (env : Env) (f : Flags) (new_proxy : Result (Unit {0})) (reads : List (Option Text))
    (flows : ℕ → Request) (w : World) where
  abbrev first : Session
  first = record { addon = fresh_addon f; world = w }

  abbrev Knows : Life → Type 0
  Knows c = IsKnown env flows first c

  receive_then-IsKnown :
      (bs : List Bool) (c : Life)
      → bs ≡ c.addon.done
      → c.point ≡ serving
      → Reach env flows first (system_of c)
      → Knows (receive_then bs c)
  unfolding receive_then
  receive_then-IsKnown [] c e at r = rw at r
  receive_then-IsKnown (b ∷ bs) c e at r =
      let (idle, won) = Reach_sent env flows first refl refl r (λ q. cc) in
      let (k, buys, same) = won in
      record { winner = k; buys = buys; handled = ap (λ (t : Session). t.addon) same; idle = idle }

  turn_on_proxy-Reach :
      (c : Life)
      → Reach env flows first (system_of c)
      → Reach env flows first (system_of (record c { shell = turn_on_proxy c.shell }))
  unfolding turn_on_proxy with_proxy
  turn_on_proxy-Reach c h = elim (Bool-cases c.shell.system_proxy) [
    | inl set ↦ rw set h
    | inr unset ↦ rw unset h
  ]

  proceed-IsKnown :
      (p : Point) (c : Life)
      → c.point ≡ p
      → Known env flows first p c
      → Knows (proceed env f.skip_proxy new_proxy reads p c)
  unfolding proceed
  proceed-IsKnown begun c at h = elim (Bool-cases f.skip_proxy) [
    | inl skipped ↦ rw skipped h
    | inr shown ↦ rw shown (turn_on_proxy-Reach c h)
  ]
  proceed-IsKnown proxied c at h = h
  proceed-IsKnown notified c at h = create_then-IsKnown env flows first new_proxy c h
  proceed-IsKnown serving c at h = receive_then-IsKnown c.addon.done c refl at h
  proceed-IsKnown released c at h = (
    IsReady-with env flows first c
        (record c {
          shell = if f.skip_proxy then c.shell else turn_off_proxy c.shell;
          point = asking c.addon.history_versions c.addon.client_user_agent reads;
        })
        refl refl h,
    refl,
    refl,
  )
  proceed-IsKnown (asking versions agent later') c at h =
      after_round-IsKnown env flows first f.skip_proxy versions agent (later_reads later') c
        (handle_read env versions agent (next_read later') c.shell.world) h
  proceed-IsKnown closing c at h =
      unlock_then-IsKnown env flows first completed c (λ q. cc) (IsReady-lock env flows first c h)
  proceed-IsKnown (exited e) c at h = rw at h

  handle_signal-IsKnown : (skip : Bool) (c : Life) → Knows (handle_signal skip c)
  unfolding handle_signal
  handle_signal-IsKnown true c = λ q. cc
  handle_signal-IsKnown false c = λ q. cc

  signal-IsKnown :
      (p : Point) (c : Life)
      → c.point ≡ p
      → Known env flows first p c
      → Knows (signal f.skip_proxy p c)
  unfolding signal
  signal-IsKnown begun c at h = λ q. cc
  signal-IsKnown proxied c at h = λ q. cc
  signal-IsKnown notified c at h = handle_signal-IsKnown f.skip_proxy c
  signal-IsKnown serving c at h = handle_signal-IsKnown f.skip_proxy c
  signal-IsKnown released c at h = handle_signal-IsKnown f.skip_proxy c
  signal-IsKnown (asking versions agent later') c at h = handle_signal-IsKnown f.skip_proxy c
  signal-IsKnown closing c at h = handle_signal-IsKnown f.skip_proxy c
  signal-IsKnown (exited e) c at h = rw at h

  flow_step-Reach :
      (i : ℕ) (c : Life)
      → Reach env flows first (system_of c)
      → Reach env flows first (system_of (flow_step env flows i c))
  unfolding flow_step
  flow_step-Reach i c h = later h (pick i)

  flow_step-IsKnown :
      (i : ℕ) (p : Point) (c : Life)
      → c.point ≡ p
      → IsServed p
      → Known env flows first p c
      → Known env flows first p (flow_step env flows i c)
  flow_step-IsKnown i begun c at on h = elim on [ ]
  flow_step-IsKnown i proxied c at on h = elim on [ ]
  flow_step-IsKnown i notified c at on h = elim on [ ]
  flow_step-IsKnown i serving c at on h = flow_step-Reach i c h
  flow_step-IsKnown i released c at on h = flow_step-IsReady env flows first i c h
  flow_step-IsKnown i (asking versions agent later') c at on h = (
    flow_step-IsReady env flows first i c h.0,
    rw (ready_step env flows first i c h.0) h.1,
    rw (ready_step env flows first i c h.0) h.2,
  )
  flow_step-IsKnown i closing c at on h = flow_step-IsReady env flows first i c h
  flow_step-IsKnown i (exited e) c at on h = elim on [ ]

  pub Lives-IsKnown : {c : Life} → Lives env f new_proxy reads flows w c → Knows c
  unfolding flow_step
  Lives-IsKnown born = start
  Lives-IsKnown (moved {c} l main_moves) = proceed-IsKnown c.point c refl (Lives-IsKnown l)
  Lives-IsKnown (moved {c} l (flow_moves i on)) =
      flow_step-IsKnown i c.point c refl on (Lives-IsKnown l)
  Lives-IsKnown (moved {c} l signal_comes) = signal-IsKnown c.point c refl (Lives-IsKnown l)
  Lives-IsKnown (moved l (signal_lost e)) = Lives-IsKnown l
  Lives-IsKnown (moved {c} l (server_fails e on)) = λ q. cc

  -- Whatever order the goroutines' steps have, before or during the rounds of `handleInput`: it works
  -- on the versions and the User-Agent of the add-on as `handleBuyRequest` leaves it after one flow
  -- with the target URL, which runs without the others, and the add-on is still so.
  pub asked_lem :
      {c : Life} {versions : List AppInfo} {agent : Text} {later' : List (Option Text)}
      → Lives env f new_proxy reads flows w c
      → c.point ≡ asking versions agent later'
      → (k : ℕ) × IsBuy (flows k)
        × (c.addon ≡ (handle_buy_request env (flows k) (locked first)).addon)
        × (versions ≡ c.addon.history_versions)
        × (agent ≡ c.addon.client_user_agent)
  asked_lem l at =
      let known = Lives-IsKnown l in
      let (ready, same, agrees) = rw at at known in
      (ready.winner, ready.buys, ready.handled, same, agrees)

  -- Whatever order the goroutines' steps have, and whenever a signal arrives or the server fails: no
  -- run ends by the unlock of a mutex that is not held.
  pub not_unlocked_twice :
      {c : Life} → Lives env f new_proxy reads flows w c → c.point ≢ exited unlocked_twice
  not_unlocked_twice l at = (let known = Lives-IsKnown l in rw at at known) refl
