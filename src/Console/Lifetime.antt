-- ===== src/Console/Lifetime.antt =====
-- A capturing run of `main` as its goroutines take their steps, in any order: the main goroutine,
-- those of the flows, that of the proxy server, and the arrival of a signal.
pub mod Switched
pub mod Ready
pub mod Same
pub mod Onward
pub mod Asked
pub mod Alone
pub mod Sequential
pub mod Scheduled
pub mod Bought
pub mod Ended
pub mod Finishing
pub mod Unstuck
use ipaversion.Base.{ℕ, ◌≡◌, Bool, true, false, Option, none, some, List, [], ◌∷◌, if◌then◌else◌}
use ipaversion.Base.Text.{Text}
use ipaversion.Outcome.{Outcome, ok, err, panic, Result, done, failed}
use ipaversion.App.{AppInfo}
use ipaversion.World.{Env, World, Request}
use ipaversion.Addon.{Addon, Session}
use ipaversion.Addon.Race.{Stage, arrived, advance, System, set_stage}
use ipaversion.Console.Proxy.{Shell, turn_on_proxy, turn_off_proxy}
use ipaversion.Console.Input.{Next, again, leave, next_read, later_reads, handle_read}
use ipaversion.Console.Process.{Flags, fresh_addon}

-- How the process ends: `main` returns, `log.Fatal`, a panic that is not recovered, a signal that is
-- handled, one that is not, or the unlock of a mutex that is not held.
pub data Exit : Type 0 where
  completed : Exit
  fatal_error : Text → Exit
  panicked : Text → Exit
  cleaned_up : Exit
  killed : Exit
  unlocked_twice : Exit

-- Where the main goroutine is: before the proxy is turned on, after that, after `signal.Notify`, at
-- `<-done`, before the proxy is turned off, in `handleInput` with the versions, the User-Agent and
-- the reads to come, at the deferred calls, or past its end.
pub data Point : Type 0 where
  begun : Point
  proxied : Point
  notified : Point
  serving : Point
  released : Point
  asking : List AppInfo → Text → List (Option Text) → Point
  closing : Point
  exited : Exit → Point

pub record Life : Type 0 where
  pub shell : Shell
  pub addon : Addon
  pub stage : ℕ → Stage
  pub point : Point

-- The flows with the add-on and the world.
abbrev pub system_of : Life → System
system_of c = record {
  session = record { addon = c.addon; world = c.shell.world };
  stage = c.stage;
}

-- `defer mu.Unlock()`, and how the run ends after it.
unfoldable pub unlock_then : Exit → Life → Life
unlock_then e c = record c { point = exited (if c.addon.lock then e else unlocked_twice) }

-- The deferred calls at a panic: the unlock, and without `-s` the recover, which turns the proxy off.
unfoldable pub unwind : Bool → Text → Life → Life
unfolding unlock_then turn_off_proxy
unwind true p c = unlock_then (panicked p) c
unwind false p c =
    unlock_then completed
      (record c { shell = if c.addon.lock then turn_off_proxy c.shell else c.shell })

-- What follows a round of `handleInput`.
unfoldable pub after_round :
    Bool → List AppInfo → Text → List (Option Text) → Life → Outcome Next × World → Life
unfolding unwind
after_round skip versions agent reads c (ok leave, w) = record c {
  shell = record c.shell { world = w };
  point = closing;
}
after_round skip versions agent reads c (ok again, w) = record c {
  shell = record c.shell { world = w };
  point = asking versions agent reads;
}
after_round skip versions agent reads c (err e, w) = record c {
  shell = record c.shell { world = w };
  point = closing;
}
after_round skip versions agent reads c (panic p, w) =
    unwind skip p (record c { shell = record c.shell { world = w } })

-- `proxy.NewProxy`, and the server's goroutine.
unfoldable pub create_then : Result (Unit {0}) → Life → Life
create_then (failed e) c = record c { point = exited (fatal_error e) }
create_then (done u) c = record c { point = serving }

-- `ok := <-done`; without a value on the channel it waits.
unfoldable pub receive_then : List Bool → Life → Life
receive_then [] c = c
receive_then (b ∷ bs) c = record c { point = released }

module _ (env : Env) (skip : Bool) (new_proxy : Result (Unit {0}))
    (reads : List (Option Text)) where
  -- The next step of the main goroutine from a point.
  unfoldable pub proceed : Point → Life → Life
  unfolding turn_on_proxy turn_off_proxy create_then receive_then after_round handle_read
      unlock_then
  proceed begun c =
      if skip
      then record c { point = notified }
      else record c { shell = turn_on_proxy c.shell; point = proxied }
  proceed proxied c = record c { point = notified }
  proceed notified c = create_then new_proxy c
  proceed serving c = receive_then c.addon.done c
  proceed released c = record c {
    shell = if skip then c.shell else turn_off_proxy c.shell;
    point = asking c.addon.history_versions c.addon.client_user_agent reads;
  }
  proceed (asking versions agent reads) c =
      after_round skip versions agent (later_reads reads) c
        (handle_read env versions agent (next_read reads) c.shell.world)
  proceed closing c = unlock_then completed c
  proceed (exited e) c = c

-- A signal once `signal.Notify` was called, which `-s` leaves out.
unfoldable pub handle_signal : Bool → Life → Life
unfolding turn_off_proxy
handle_signal true c = record c { point = exited killed }
handle_signal false c = record c { shell = turn_off_proxy c.shell; point = exited cleaned_up }

unfoldable pub signal : Bool → Point → Life → Life
unfolding handle_signal
signal skip begun c = record c { point = exited killed }
signal skip proxied c = record c { point = exited killed }
signal skip notified c = handle_signal skip c
signal skip serving c = handle_signal skip c
signal skip released c = handle_signal skip c
signal skip (asking versions agent reads) c = handle_signal skip c
signal skip closing c = handle_signal skip c
signal skip (exited e) c = c

-- The proxy server runs from its creation on until the process ends.
abbrev pub IsServed : Point → Type 0
IsServed begun = ⊥
IsServed proxied = ⊥
IsServed notified = ⊥
IsServed serving = Unit
IsServed released = Unit
IsServed (asking versions agent reads) = Unit
IsServed closing = Unit
IsServed (exited e) = ⊥

-- A flow's goroutine takes its next step.
unfoldable pub flow_step : Env → (ℕ → Request) → ℕ → Life → Life
flow_step env flows i c =
    let (st, s) =
      advance env (flows i) (c.stage i) (record { addon = c.addon; world = c.shell.world }) in
    record c {
      shell = record c.shell { world = s.world };
      addon = s.addon;
      stage = set_stage c.stage i st;
    }

module _ (env : Env) (f : Flags) (new_proxy : Result (Unit {0})) (reads : List (Option Text))
    (flows : ℕ → Request) where
  -- Any goroutine takes the next step, a signal arrives, or `p.Start` returns. A signal that comes
  -- before its goroutine waits for it is lost, since the channel has no buffer.
  pub data Move (c : Life) : Life → Type 0 where
    main_moves : Move c (proceed env f.skip_proxy new_proxy reads c.point c)
    flow_moves : (i : ℕ) → IsServed c.point → Move c (flow_step env flows i c)
    signal_comes : Move c (signal f.skip_proxy c.point c)
    signal_lost : f.skip_proxy ≡ false → Move c c
    server_fails :
        (e : Text) → IsServed c.point → Move c (record c { point = exited (fatal_error e) })

  -- The run from its start, in a world `w`.
  abbrev pub start_life : World → Life
  start_life w = record {
    shell = record { system_proxy = false; proxy_calls = []; world = w };
    addon = fresh_addon f;
    stage = λ _. arrived;
    point = begun;
  }

  pub data Lives (w : World) : Life → Type 0 where
    born : Lives w (start_life w)
    moved : {c d : Life} → Lives w c → Move c d → Lives w d

  -- The run goes on from `o` by steps of the main goroutine and of the flows alone.
  pub data Leads (o : Life) : Life → Type 0 where
    stays : Leads o o
    main_goes :
        {c : Life} → Leads o c → Leads o (proceed env f.skip_proxy new_proxy reads c.point c)
    flow_goes :
        {c : Life} → Leads o c → (i : ℕ) → IsServed c.point → Leads o (flow_step env flows i c)

  pub Leads-Lives : {w : World} {o c : Life} → Lives w o → Leads o c → Lives w c
  Leads-Lives l stays = l
  Leads-Lives l (main_goes h) = moved (Leads-Lives l h) main_moves
  Leads-Lives l (flow_goes h i on) = moved (Leads-Lives l h) (flow_moves i on)

  pub Leads-trans : {o c d : Life} → Leads o c → Leads c d → Leads o d
  Leads-trans h stays = h
  Leads-trans h (main_goes k) = main_goes (Leads-trans h k)
  Leads-trans h (flow_goes k i on) = flow_goes (Leads-trans h k) i on
