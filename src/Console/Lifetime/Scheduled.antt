-- ===== src/Console/Lifetime/Scheduled.antt =====
-- A run of `main` in which the proxy passes one flow alone is an interleaved one.
use ipaversion.Base.{ℕ, ◌≡◌, refl, ap, ◌∙◌, sym, Bool, true, false, List, [], ◌∷◌, if◌then◌else◌}
use ipaversion.Outcome.{Result, done, failed}
use ipaversion.Addon.{Addon, Session}
use ipaversion.Addon.Once.{serve, locked, handle_buy_request-Signals}
use ipaversion.Addon.Race.{Stage, arrived, run}
use ipaversion.Addon.Race.Alone.{run_lem}
use ipaversion.Addon.Race.Exclusion.{IsBuy}
use ipaversion.Console.Proxy.{Shell, turn_on_proxy, turn_off_proxy}
use ipaversion.Console.Process.{after_done, capture}
use ipaversion.Console.Lifetime.{
  Point, begun, proxied, notified, serving, released, Life, create_then, receive_then, proceed,
  start_life, Lives, born, stays, Leads-Lives,
}
use ipaversion.Console.Lifetime.Alone.{
  Setting, with_world, first, new_shell, on_shell, on_shell-world, serve-won, won, won_shell, alone,
  capture-alone,
}
use ipaversion.Console.Lifetime.Onward.{
  flow_runs, Matches, Run, main_at, main_runs, InputFrom, rounds-Reaches,
}

module _ (g : Setting) where
  open g use {env, f, new_proxy, reads, flows, w}

  abbrev start_point : Life
  start_point = start_life env f new_proxy reads flows w

  -- A run that has gone on from the start.
  abbrev Begins : Life → Type 0
  Begins c = Run g start_point c

  abbrev point_life : Point → Life
  point_life p = record (start_life env f new_proxy reads flows w) { shell = on_shell g; point = p }

  begun_runs :
      (b : Bool)
      → Begins (
          if b
          then record (start_life env f new_proxy reads flows w) { point = notified }
          else record (start_life env f new_proxy reads flows w) {
            shell = turn_on_proxy (new_shell g);
            point = proxied;
          })
      → Begins (record (point_life notified) {
        shell = if b then new_shell g else turn_on_proxy (new_shell g);
      })
  unfolding proceed
  begun_runs true l = l
  begun_runs false l = main_runs g start_point proxied l refl

  create_runs :
      (r : Result (Unit {0})) (c : Life)
      → r ≡ done tt
      → Begins (create_then r c)
      → Begins (record c { point = serving })
  unfolding create_then
  create_runs (done u) c h l = l
  create_runs (failed e) c h l = cc

  receive_runs :
      (bs : List Bool) (b : Bool) (c : Life)
      → bs ≡ b ∷ []
      → Begins (receive_then bs c)
      → Begins (record c { point = released })
  unfolding receive_then
  receive_runs [] b c h l = cc
  receive_runs (x ∷ bs) b c h l = l

  serving_runs : new_proxy ≡ done tt → Begins (point_life serving)
  unfolding proceed
  serving_runs created = create_runs new_proxy (point_life notified) created (
      main_runs g start_point notified
        (begun_runs f.skip_proxy (main_runs g start_point begun stays refl)) refl)

  -- The flow `k` runs, and `main` receives what it sends.
  won_runs :
      (k : ℕ)
      → IsBuy (flows k)
      → new_proxy ≡ done tt
      → (c : Life) × Begins c
        × (c.point ≡ released)
        × (c.addon ≡ (won g k).addon)
        × (c.shell ≡ won_shell g k)
  unfolding serve proceed
  won_runs k buy created =
      let (n, e) = run_lem env (flows k) (first g) in
      let (d, l, at, same, kept) =
        flow_runs g start_point k n (point_life serving) (serving_runs created) refl in
      let begins =
        ap (λ v. (run env (flows k) n (arrived, record (first g) { world = v })).1)
          (on_shell-world g) in
      let gone = same ∙ begins ∙ ap (λ (x : Stage × Session). x.1) e ∙ serve-won g k buy in
      let (b, sent, _) = handle_buy_request-Signals env (flows k) (locked (first g)) in
      (
        record d { point = released },
        receive_runs d.addon.done b d (ap (λ (t : Session). t.addon.done) gone ∙ sent)
            (main_runs g start_point serving l at),
        refl,
        ap (λ (t : Session). t.addon) gone,
        with_world w (won g k).world d.shell (on_shell g) (kept w)
            (ap (λ (t : Session). t.world) gone),
      )

  abbrev off_shell : Shell → Shell
  off_shell s = if f.skip_proxy then s else turn_off_proxy s

  -- Wherever the run in which the proxy passes the flow `k` alone gets to in some rounds, an
  -- interleaved run gets to as well, with the same files, requests and calls on the system proxy.
  pub scheduled_lem :
      (k n : ℕ)
      → IsBuy (flows k)
      → new_proxy ≡ done tt
      → (d : Life) × Lives env f new_proxy reads flows w d
        × Matches (capture env f (alone g k) n (start_life env f new_proxy reads flows w).shell) d
  unfolding proceed after_done
  scheduled_lem k n buy created =
      let (c, l, at, addon, shell) = won_runs k buy created in
      let (b, sent, lock) = handle_buy_request-Signals env (flows k) (locked (first g)) in
      let held = ap (λ (a : Addon). a.lock) addon ∙ lock in
      let asks =
        rounds-Reaches g start_point n c.addon.history_versions c.addon.client_user_agent reads
          (main_at g released c) (main_runs g start_point released l at) refl held in
      let same =
        ap
          (λ (a : Addon).
            InputFrom g a.history_versions a.client_user_agent n reads (off_shell c.shell))
          addon
        ∙ ap
            (λ s.
              InputFrom g (won g k).addon.history_versions (won g k).addon.client_user_agent n reads
                (off_shell s))
            shell
        ∙ sym (capture-alone g k n buy created) in
      let (d, h, agrees) = rw same at asks in
      (d, Leads-Lives env f new_proxy reads flows born h, agrees)
