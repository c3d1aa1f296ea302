-- ===== src/Console/Lifetime/Ready.antt =====
-- What is known of a capturing run at each point, and the steps that keep it.
use ipaversion.Base.{
  ℕ, ◌≡◌, ◌≢◌, inl, inr, refl, ap, ◌∙◌, Bool, true, false, Option, List, if◌then◌else◌,
}
use ipaversion.Base.Text.{Text}
use ipaversion.Outcome.{Outcome, ok, err, panic, Result, done, failed}
use ipaversion.App.{AppInfo}
use ipaversion.World.{Env, World, Request}
use ipaversion.Addon.{Addon, Session, handle_buy_request}
use ipaversion.Addon.Once.{locked, handle_buy_request-Signals}
use ipaversion.Addon.Race.{over, set_stage, Reach}
use ipaversion.Addon.Race.Exclusion.{IsIdle, IsBuy, idle_step, set_stage-IsIdle}
use ipaversion.Console.Proxy.{turn_off_proxy}
use ipaversion.Console.Input.{Next, again, leave}
use ipaversion.Console.Lifetime.{
  Exit, completed, panicked, unlocked_twice, Point, begun, proxied, notified, serving, released,
  asking, closing, exited, Life, system_of, unlock_then, unwind, after_round, create_then,
  flow_step,
}

module _ (env : Env) (flows : ℕ → Request) (s : Session) where
  -- The add-on is as the handler leaves it after one buy flow, and no goroutine of a flow works.
  pub record IsReady (c : Life) : Type 0 where
    pub winner : ℕ
    pub buys : IsBuy (flows winner)
    pub handled : c.addon ≡ (handle_buy_request env (flows winner) (locked s)).addon
    pub idle : (j : ℕ) → IsIdle (c.stage j)

  pub IsReady-lock : (c : Life) → IsReady c → c.addon.lock ≡ true
  IsReady-lock c h =
      let (b, sent, lock) = handle_buy_request-Signals env (flows h.winner) (locked s) in
      ap (λ (a : Addon). a.lock) h.handled ∙ lock

  abbrev pub Known : Point → Life → Type 0
  Known begun c = Reach env flows s (system_of c)
  Known proxied c = Reach env flows s (system_of c)
  Known notified c = Reach env flows s (system_of c)
  Known serving c = Reach env flows s (system_of c)
  Known released c = IsReady c
  Known (asking versions agent reads) c =
      IsReady c × (versions ≡ c.addon.history_versions) × (agent ≡ c.addon.client_user_agent)
  Known closing c = IsReady c
  Known (exited e) c = e ≢ unlocked_twice

  abbrev pub IsKnown : Life → Type 0
  IsKnown c = Known c.point c

  -- Another state with the same add-on and flows is as ready.
  pub IsReady-with : (c d : Life) → d.addon ≡ c.addon → d.stage ≡ c.stage → IsReady c → IsReady d
  IsReady-with c d e1 e2 h = record {
    winner = h.winner;
    buys = h.buys;
    handled = e1 ∙ h.handled;
    idle = rw e2 h.idle;
  }

  pub unlock_then-IsKnown :
      (e : Exit) (c : Life) → e ≢ unlocked_twice → c.addon.lock ≡ true → IsKnown (unlock_then e c)
  unfolding unlock_then
  unlock_then-IsKnown e c ne held = rw held ne

  unwind-IsKnown :
      (skip : Bool) (p : Text) (c : Life) → c.addon.lock ≡ true → IsKnown (unwind skip p c)
  unfolding unwind
  unwind-IsKnown true p c held = unlock_then-IsKnown (panicked p) c (λ q. cc) held
  unwind-IsKnown false p c held =
      unlock_then-IsKnown completed
        (record c { shell = if c.addon.lock then turn_off_proxy c.shell else c.shell }) (λ q. cc)
        held

  pub after_round-IsKnown :
      (skip : Bool) (versions : List AppInfo) (agent : Text) (reads : List (Option Text)) (c : Life)
      (x : Outcome Next × World)
      → Known (asking versions agent reads) c
      → IsKnown (after_round skip versions agent reads c x)
  unfolding after_round
  after_round-IsKnown skip versions agent reads c (ok leave, w) h =
      IsReady-with c (record c { shell = record c.shell { world = w }; point = closing }) refl refl
        h.0
  after_round-IsKnown skip versions agent reads c (ok again, w) h = (
    IsReady-with c
        (record c { shell = record c.shell { world = w }; point = asking versions agent reads })
        refl refl h.0,
    h.1,
    h.2,
  )
  after_round-IsKnown skip versions agent reads c (err e, w) h =
      IsReady-with c (record c { shell = record c.shell { world = w }; point = closing }) refl refl
        h.0
  after_round-IsKnown skip versions agent reads c (panic p, w) h =
      unwind-IsKnown skip p (record c { shell = record c.shell { world = w } }) (IsReady-lock c h.0)

  pub create_then-IsKnown :
      (r : Result (Unit {0})) (c : Life)
      → Reach env flows s (system_of c)
      → IsKnown (create_then r c)
  unfolding create_then
  create_then-IsKnown (failed e) c h = λ q. cc
  create_then-IsKnown (done u) c h = h

  -- Once the winner is done, a flow's step ends its goroutine and changes nothing else.
  pub ready_step :
      (i : ℕ) (c : Life)
      → IsReady c
      → flow_step env flows i c ≡ record c { stage = set_stage c.stage i over }
  unfolding flow_step
  ready_step i c h =
      let t : Session = record { addon = c.addon; world = c.shell.world } in
      elim (idle_step env (flows i) (c.stage i) t (h.idle i)) [
        | inr (buy, open_lock, e) ↦ absurd (let held = IsReady-lock c h in cc)
        | inl (e, busy) ↦ rw e
      ]

  pub flow_step-IsReady : (i : ℕ) (c : Life) → IsReady c → IsReady (flow_step env flows i c)
  flow_step-IsReady i c h = rw (ready_step i c h) (record {
    winner = h.winner;
    buys = h.buys;
    handled = h.handled;
    idle = λ j. set_stage-IsIdle c.stage i j over tt (h.idle j);
  })
