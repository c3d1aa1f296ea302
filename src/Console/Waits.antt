-- ===== src/Console/Waits.antt =====
-- When a capturing run waits for ever: when no flow to the store's buy address comes.
use ipaversion.Base.{
  ℕ, ◌≡◌, ◌≢◌, ◌↔◌, inl, inr, refl, ap, ◌∙◌, Bool, true, false, Bool-cases, Option, none, some, [],
  ◌∷◌, ◌++◌, if◌then◌else◌,
}
use ipaversion.Outcome.{Outcome, ok, err, panic, done}
use ipaversion.World.{Env, World, Request}
use ipaversion.Addon.{Addon, Session}
use ipaversion.Addon.Once.{
  serve, first_buy, locked, handle_first, handle_buy_request-Signals, serve_lem,
}
use ipaversion.Console.Proxy.{Shell, turn_on_proxy, turn_off_proxy}
use ipaversion.Console.Input.{handle_input}
use ipaversion.Console.Process.{
  Flags, Outside, Ending, returned, fatal, crashed, interrupted, waiting, reading, fresh_addon,
  input_ended, recovered_main, on_signal, after_done, wait_done, captured, start_proxy,
  new_proxy_then, capture,
}

input_ended-ne-waiting : (s : Shell) (x : Outcome Bool × World) → (input_ended s x).0 ≢ waiting
unfolding input_ended
input_ended-ne-waiting s (ok true, w) = λ h. cc
input_ended-ne-waiting s (ok false, w) = λ h. cc
input_ended-ne-waiting s (err e, w) = λ h. cc
input_ended-ne-waiting s (panic p, w) = λ h. cc

-- A panic is recovered to a return, so a run waits after the recover where it has waited before.
recovered_main_waits :
    (b : Bool) (x : Ending × Shell) → ((recovered_main b x).0 ≡ waiting) ↔ (x.0 ≡ waiting)
unfolding recovered_main
recovered_main_waits true (e, s) = (λ h. h, λ h. h)
recovered_main_waits false (returned, s) = (λ h. h, λ h. h)
recovered_main_waits false (fatal m, s) = (λ h. h, λ h. h)
recovered_main_waits false (crashed p, s) = (λ h. cc, λ h. cc)
recovered_main_waits false (interrupted, s) = (λ h. h, λ h. h)
recovered_main_waits false (waiting, s) = (λ h. h, λ h. h)
recovered_main_waits false (reading, s) = (λ h. h, λ h. h)

module _ (env : Env) (f : Flags) (o : Outside) (rounds : ℕ) where
  after_done-ne-waiting : (s : Shell) (a : Addon) → (after_done env f o rounds a s).0 ≢ waiting
  unfolding after_done
  after_done-ne-waiting s a =
      let s' : Shell = if f.skip_proxy then s else turn_off_proxy s in
      input_ended-ne-waiting s'
        (handle_input env a.history_versions a.client_user_agent rounds o.reads s'.world)

  first_waits :
      (s : Shell) (t : Session) (first : Option Request)
      → t.addon.done ≡ []
      → ((captured env f o rounds s (handle_first env t first)).0 ≡ waiting) ↔ (first ≡ none)
  unfolding captured wait_done
  first_waits s t none silent = rw silent (λ h. refl, λ h. refl)
  first_waits s t (some req) silent =
      let (b, sent, _) = handle_buy_request-Signals env req (locked t) in
      let one = sent ∙ ap (λ bs. bs ++ (b ∷ [])) silent in
      let u : Session = handle_first env t (some req) in
      rw one (λ h. absurd (after_done-ne-waiting (record s { world = u.world }) u.addon h), λ h. cc)

  served_waits :
      (s : Shell) (w : World)
      → ((captured env f o rounds s
            (serve env o.flows (record { addon = fresh_addon f; world = w }))).0
          ≡ waiting)
        ↔ (first_buy o.flows ≡ none)
  served_waits s w =
      let t : Session = record { addon = fresh_addon f; world = w } in
      rw (serve_lem env o.flows t refl) (first_waits s t (first_buy o.flows) refl)

  -- If the proxy starts and no signal comes, a capturing run waits, with or without -s, exactly when
  -- no flow to the store's buy address comes.
  pub capture_waits_iff :
      (s : Shell)
      → o.new_proxy ≡ done tt
      → o.start_error ≡ none
      → o.signalled ≡ false
      → ((capture env f o rounds s).0 ≡ waiting) ↔ (first_buy o.flows ≡ none)
  unfolding capture new_proxy_then start_proxy on_signal turn_on_proxy
  capture_waits_iff s created started calm = elim (Bool-cases f.skip_proxy) [
    | inl skip ↦ simp (created, started, skip) (served_waits s s.world)
    | inr shown ↦
        simp (created, started, shown, calm)
          (let (p, q) = served_waits (turn_on_proxy s) (turn_on_proxy s).world in
            let (l, r) = recovered_main_waits false (
              captured env f o rounds (turn_on_proxy s) (
                serve env o.flows
                  (record { addon = fresh_addon f; world = (turn_on_proxy s).world }))) in
            (λ h. p (l h), λ h. r (q h)))
  ]
