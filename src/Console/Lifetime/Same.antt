-- ===== src/Console/Lifetime/Same.antt =====
-- What an interleaved run has in common with the sequential one, and the steps of `main` that keep it.
use ipaversion.Base.{
  suc, ◌+◌, ◌≡◌, refl, ap, ◌∙◌, sym, Bool, true, false, Option, List, [], ◌∷◌, arith, if◌then◌else◌,
}
use ipaversion.Base.Text.{Text}
use ipaversion.Outcome.{Outcome, ok, err, panic, Result, done, failed}
use ipaversion.App.{AppInfo}
use ipaversion.World.{World}
use ipaversion.Addon.{Addon, Session}
use ipaversion.Addon.Race.{Reach}
use ipaversion.Addon.Race.Silence.{Reach_sent}
use ipaversion.Console.Proxy.{Shell, turn_off_proxy}
use ipaversion.Console.Input.{
  Next, again, leave, handle_read, next_read, later_reads, then_loop, handle_input,
}
use ipaversion.Console.Process.{Ending, returned, crashed, input_ended, recovered_main}
use ipaversion.Console.Lifetime.{
  system_of, completed, fatal_error, panicked, cleaned_up, killed, unlocked_twice, Point, begun,
  proxied, notified, serving, released, asking, closing, exited, Life, unlock_then, unwind,
  after_round, create_then, receive_then,
}
use ipaversion.Console.Lifetime.Alone.{
  Setting, with_world, first, new_shell, on_shell, won, won_shell, input_shell, Winner, Asks,
  Captures, Leaves, last_round,
}

module _ (g : Setting) where
  open g use {env, f, new_proxy, reads, flows, w}

  abbrev pub Same : Point → Life → Type 0
  Same begun c = c.shell ≡ (new_shell g)
  Same proxied c = c.shell ≡ (on_shell g)
  Same notified c = c.shell ≡ (on_shell g)
  Same serving c =
      (new_proxy ≡ done tt) × (record c.shell { world = w } ≡ record (on_shell g) { world = w })
  Same released c =
      (x : Winner g) × (c.shell ≡ won_shell g x.flow) × (c.addon ≡ (won g x.flow).addon)
  Same (asking versions agent later') c =
      (x : Winner g) × Asks g x.flow versions agent later' c.shell
  Same closing c = (x : Winner g) × Leaves g returned x.flow c.shell
  Same (exited completed) c = Captures g returned c
  Same (exited (fatal_error e)) c = Unit
  Same (exited (panicked p)) c = Captures g (crashed p) c
  Same (exited cleaned_up) c = Unit
  Same (exited killed) c = Unit
  Same (exited unlocked_twice) c = Unit

  abbrev pub IsSame : Life → Type 0
  IsSame c = Same c.point c

  recovered_returned : (b : Bool) (s : Shell) → recovered_main b (returned, s) ≡ (returned, s)
  unfolding recovered_main
  recovered_returned true s = refl
  recovered_returned false s = refl

  Captures-returned :
      (x : Winner g) (c : Life) → Leaves g returned x.flow c.shell → Captures g returned c
  Captures-returned x c (n, e) =
      (x, n, ap (recovered_main f.skip_proxy) e ∙ recovered_returned f.skip_proxy c.shell)

  pub unlock_then-IsSame :
      (x : Winner g) (c : Life)
      → c.addon.lock ≡ true
      → Leaves g returned x.flow c.shell
      → IsSame (unlock_then completed c)
  unfolding unlock_then
  unlock_then-IsSame x c held h = rw held (Captures-returned x c h)

  unwind-Captures :
      (b : Bool) (p : Text) (c : Life)
      → c.addon.lock ≡ true
      → ((d : Life) (e : Ending)
          → recovered_main b (crashed p, c.shell) ≡ (e, d.shell)
          → Captures g e d)
      → IsSame (unwind b p c)
  unfolding unwind unlock_then recovered_main
  unwind-Captures true p c held found =
      rw held (found (record c { point = exited (panicked p) }) (crashed p) refl)
  unwind-Captures false p c held found =
      rw held (
        found (record c { shell = turn_off_proxy c.shell; point = exited completed }) returned refl)

  unwind-IsSame :
      (x : Winner g) (p : Text) (c : Life)
      → c.addon.lock ≡ true
      → Leaves g (crashed p) x.flow c.shell
      → IsSame (unwind f.skip_proxy p c)
  unwind-IsSame x p c held (n, e) =
      unwind-Captures f.skip_proxy p c held
        (λ d e' same. (x, n, ap (recovered_main f.skip_proxy) e ∙ same))

  pub after_round-IsSame :
      (x : Winner g) (versions : List AppInfo) (agent : Text) (later' : List (Option Text))
      (c : Life) (y : Outcome Next × World)
      → c.addon.lock ≡ true
      → Asks g x.flow versions agent later' c.shell
      → handle_read env versions agent (next_read later') c.shell.world ≡ y
      → IsSame (after_round f.skip_proxy versions agent (later_reads later') c y)
  unfolding after_round input_ended handle_input
  after_round-IsSame x versions agent later' c (ok leave, v) held a e =
      (x, last_round g x.flow versions agent later' c a (ok true) v returned (rw e) (λ s. refl))
  after_round-IsSame x versions agent later' c (ok again, v) held a e = (
    x,
    record {
      listed = a.listed;
      signed = a.signed;
      switched = a.switched;
      rounds = a.rounds + 1;
      looped = λ m.
          ap (λ n. handle_input env versions agent n reads (input_shell g x.flow).world)
            (omega arith)
          ∙ a.looped (suc m)
          ∙ ap
              (λ (y : Outcome Next × World).
                then_loop y (handle_input env versions agent m (later_reads later')))
              e;
    },
  )
  after_round-IsSame x versions agent later' c (err m, v) held a e =
      (x, last_round g x.flow versions agent later' c a (err m) v returned (rw e) (λ s. refl))
  after_round-IsSame x versions agent later' c (panic p, v) held a e =
      unwind-IsSame x p (record c { shell = record c.shell { world = v } }) held
        (last_round g x.flow versions agent later' c a (panic p) v (crashed p) (rw e) (λ s. refl))

  pub create_then-IsSame :
      (r : Result (Unit {0})) (c : Life)
      → new_proxy ≡ r
      → c.shell ≡ (on_shell g)
      → IsSame (create_then r c)
  unfolding create_then
  create_then-IsSame (failed e) c created h = tt
  create_then-IsSame (done u) c created h = (created, ap (λ (s : Shell). record s { world = w }) h)

  pub receive_then-IsSame :
      (bs : List Bool) (c : Life)
      → bs ≡ c.addon.done
      → c.point ≡ serving
      → Reach env flows (first g) (system_of c)
      → Same serving c
      → IsSame (receive_then bs c)
  unfolding receive_then
  receive_then-IsSame [] c e at r h = rw at h
  receive_then-IsSame (b ∷ bs) c e at r (created, same) =
      let (idle, won_by) = Reach_sent env flows (first g) refl refl r (λ q. cc) in
      let (k, buys, gone) = won_by in
      (
        record { flow = k; buys = buys; created = created },
        with_world w (won g k).world c.shell (on_shell g) same (ap (λ (t : Session). t.world) gone),
        ap (λ (t : Session). t.addon) gone,
      )

  -- The loop's start.
  pub Asks-first :
      (x : Winner g) (c : Life)
      → c.shell ≡ won_shell g x.flow
      → c.addon ≡ (won g x.flow).addon
      → Asks g x.flow c.addon.history_versions c.addon.client_user_agent reads
          (if f.skip_proxy then c.shell else turn_off_proxy c.shell)
  Asks-first x c shell addon = record {
    listed = ap (λ (a : Addon). a.history_versions) addon;
    signed = ap (λ (a : Addon). a.client_user_agent) addon;
    switched =
        ap (λ (s : Shell). record (if f.skip_proxy then s else turn_off_proxy s) { world = w })
          shell;
    rounds = 0;
    looped = λ m.
        ap
          (λ n.
            handle_input env c.addon.history_versions c.addon.client_user_agent n reads
              (input_shell g x.flow).world)
          (omega arith)
        ∙ ap
            (λ (s : Shell).
              handle_input env c.addon.history_versions c.addon.client_user_agent m reads
                (if f.skip_proxy then s else turn_off_proxy s).world)
            (sym shell);
  }
