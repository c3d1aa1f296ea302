-- ===== src/Console/Refusal.antt =====
-- A capturing run in which the store answers with no app.
use ipaversion.Base.{
  ℕ, zero, suc, ◌≡◌, ◌≢◌, inl, inr, refl, ap, ◌∙◌, Bool, true, false, Bool-cases, Option, none,
  some, List, [], ◌∷◌, if◌then◌else◌,
}
use ipaversion.Base.Text.{Text, contains}
use ipaversion.Outcome.{Outcome, ok, err, panic, Result, done, failed}
use ipaversion.App.{AppInfo}
use ipaversion.World.{Env, World, Action, Request, Files}
use ipaversion.Addon.{Addon, Session, target_url_substr}
use ipaversion.Addon.Retry.{answer}
use ipaversion.Addon.Buy.{handle_buy_request_refused}
use ipaversion.Addon.Once.{first_buy, locked, handle_first, handle_buy_request_invalid, serve_lem}
use ipaversion.Addon.Race.Exclusion.{IsBuy}
use ipaversion.Console.Proxy.{
  Shell, turn_on_proxy, turn_off_proxy, turn_on_proxy-world, turn_off_proxy-world,
}
use ipaversion.Console.Input.{
  Next, again, leave, handle_read, next_read, later_reads, then_loop, handle_input,
}
use ipaversion.Console.Process.{
  Flags, Outside, Ending, returned, fatal, crashed, interrupted, waiting, reading, fresh_addon,
  input_ended, recovered_main, on_signal, after_done, wait_done, captured, start_proxy,
  new_proxy_then, capture,
}
use ipaversion.Console.Rounds.{handle_read_lem}

then_loop_still :
    (x : Outcome Next × World) (f : Action Bool) (w : World)
    → x.1 ≡ w
    → ((v : World) → (f v).1 ≡ v)
    → (then_loop x f).1 ≡ w
then_loop_still (ok leave, v) f w e h = e
then_loop_still (ok again, v) f w e h = h v ∙ e
then_loop_still (err m, v) f w e h = e
then_loop_still (panic p, v) f w e h = e

first_buy-IsBuy : (reqs : List Request) (req : Request) → first_buy reqs ≡ some req → IsBuy req
unfolding first_buy
first_buy-IsBuy [] req e = cc
first_buy-IsBuy (r ∷ reqs) req e = elim (Bool-cases (contains r.url target_url_substr)) [
  | inl hit ↦ let same = rw hit at e in let eq : r ≡ req = cc in rw (← eq) hit
  | inr miss ↦ first_buy-IsBuy reqs req (rw miss at e)
]

module _ (env : Env) where
  -- With no versions to choose from, the loop leaves the world alone.
  handle_input_still :
      (agent : Text) (rounds : ℕ) (reads : List (Option Text)) (w : World)
      → (handle_input env [] agent rounds reads w).1 ≡ w
  unfolding handle_input
  handle_input_still agent zero reads w = refl
  handle_input_still agent (suc rounds) reads w =
      then_loop_still (handle_read env [] agent (next_read reads) w)
        (handle_input env [] agent rounds (later_reads reads)) w
        (elim (handle_read_lem env [] agent (next_read reads) w) [
          | inl same ↦ same
          | inr (i, app, no_version, v) ↦ cc
        ])
        (handle_input_still agent rounds (later_reads reads))

  -- The add-on has no version, and the files are as they were.
  abbrev Barren : Files → Session → Type 0
  Barren files t = (t.world.files ≡ files) × (t.addon.history_versions ≡ [])

  handle_first-Barren :
      (t : Session) (o : Option Request)
      → t.addon.history_versions ≡ []
      → ((req : Request) (app : AppInfo) → o ≡ some req → answer env req t.world.calls ≢ ok app)
      → Barren t.world.files (handle_first env t o)
  handle_first-Barren t none empty lost = (refl, empty)
  handle_first-Barren t (some req) empty lost =
      elim (Bool-cases (env.request_is_valid req.method req.url)) [
        | inr invalid ↦ rw (handle_buy_request_invalid env req (locked t) invalid) (refl, empty)
        | inl valid ↦
            rw (handle_buy_request_refused env req valid (locked t) (λ app. lost req app refl))
              (refl, empty)
      ]

abbrev KeepsFiles : Files → Ending × Shell → Type 0
KeepsFiles files x = x.1.world.files ≡ files

input_ended-KeepsFiles :
    (files : Files) (s : Shell) (x : Outcome Bool × World)
    → x.1.files ≡ files
    → KeepsFiles files (input_ended s x)
unfolding input_ended
input_ended-KeepsFiles files s (ok true, w) h = h
input_ended-KeepsFiles files s (ok false, w) h = h
input_ended-KeepsFiles files s (err e, w) h = h
input_ended-KeepsFiles files s (panic p, w) h = h

turned_off :
    (files : Files) (s : Shell) → s.world.files ≡ files → (turn_off_proxy s).world.files ≡ files
turned_off files s h = ap (λ (w : World). w.files) (turn_off_proxy-world s) ∙ h

recovered_main-KeepsFiles :
    (files : Files) (b : Bool) (x : Ending × Shell)
    → KeepsFiles files x
    → KeepsFiles files (recovered_main b x)
unfolding recovered_main
recovered_main-KeepsFiles files true (e, s) h = h
recovered_main-KeepsFiles files false (returned, s) h = h
recovered_main-KeepsFiles files false (fatal e, s) h = h
recovered_main-KeepsFiles files false (crashed p, s) h = turned_off files s h
recovered_main-KeepsFiles files false (interrupted, s) h = h
recovered_main-KeepsFiles files false (waiting, s) h = h
recovered_main-KeepsFiles files false (reading, s) h = h

on_signal-KeepsFiles :
    (files : Files) (b : Bool) (x : Ending × Shell)
    → KeepsFiles files x
    → KeepsFiles files (on_signal b x)
unfolding on_signal
on_signal-KeepsFiles files false (e, s) h = h
on_signal-KeepsFiles files true (returned, s) h = h
on_signal-KeepsFiles files true (fatal e, s) h = h
on_signal-KeepsFiles files true (crashed p, s) h = h
on_signal-KeepsFiles files true (interrupted, s) h = h
on_signal-KeepsFiles files true (waiting, s) h = turned_off files s h
on_signal-KeepsFiles files true (reading, s) h = turned_off files s h

module _ (env : Env) (f : Flags) (o : Outside) (rounds : ℕ) where
  after_done-KeepsFiles :
      (files : Files) (a : Addon) (s : Shell)
      → a.history_versions ≡ []
      → s.world.files ≡ files
      → KeepsFiles files (after_done env f o rounds a s)
  unfolding after_done
  after_done-KeepsFiles files a s empty h =
      let off : Shell = if f.skip_proxy then s else turn_off_proxy s in
      rw empty (
        input_ended-KeepsFiles files off
          (handle_input env [] a.client_user_agent rounds o.reads off.world)
          (ap (λ (w : World). w.files)
              (handle_input_still env a.client_user_agent rounds o.reads off.world)
            ∙ switched f.skip_proxy))
    where
      switched : (b : Bool) → (if b then s else turn_off_proxy s).world.files ≡ files
      switched true = h
      switched false = turned_off files s h

  wait_done-KeepsFiles :
      (files : Files) (bs : List Bool) (a : Addon) (s : Shell)
      → a.history_versions ≡ []
      → s.world.files ≡ files
      → KeepsFiles files (wait_done env f o rounds s bs a)
  unfolding wait_done
  wait_done-KeepsFiles files [] a s empty h = h
  wait_done-KeepsFiles files (b ∷ bs) a s empty h = after_done-KeepsFiles files a s empty h

  started_keeps :
      (s : Shell) (r : Result (Unit {0})) (e : Option Text)
      → ((req : Request) (app : AppInfo) → IsBuy req → answer env req s.world.calls ≢ ok app)
      → o.start_error ≡ e
      → KeepsFiles s.world.files (new_proxy_then env f o rounds s r)
  unfolding new_proxy_then start_proxy captured
  started_keeps s (failed m) e lost at = refl
  started_keeps s (done u) (some m) lost at = rw at refl
  started_keeps s (done u) none lost at =
      let t : Session = record { addon = fresh_addon f; world = s.world } in
      let (kept, empty) =
        handle_first-Barren env t (first_buy o.flows) refl
          (λ req app e. lost req app (first_buy-IsBuy o.flows req e)) in
      rw (at, serve_lem env o.flows t refl)
        (let u = handle_first env t (first_buy o.flows) in
          wait_done-KeepsFiles s.world.files u.addon.done u.addon (record s { world = u.world })
            empty kept)

  -- If the store answers no request to the buy address with an app, then, whatever else the run meets
  -- and whatever the user types, it leaves the files as they are.
  pub capture_refused :
      (s : Shell)
      → ((req : Request) (app : AppInfo) → IsBuy req → answer env req s.world.calls ≢ ok app)
      → (capture env f o rounds s).1.world.files ≡ s.world.files
  unfolding capture
  capture_refused s lost =
      let on : Shell = if f.skip_proxy then s else turn_on_proxy s in
      let same = turned_on f.skip_proxy in
      let x = recovered_main f.skip_proxy (new_proxy_then env f o rounds on o.new_proxy) in
      let started = started_keeps on o.new_proxy o.start_error (rw same lost) refl in
      let kept = recovered_main-KeepsFiles on.world.files f.skip_proxy _ started in
      ends f.skip_proxy x kept ∙ ap (λ (w : World). w.files) same
    where
      turned_on : (b : Bool) → (if b then s else turn_on_proxy s).world ≡ s.world
      turned_on true = refl
      turned_on false = turn_on_proxy-world s

      ends :
          {files : Files} (b : Bool) (x : Ending × Shell)
          → KeepsFiles files x
          → KeepsFiles files (if b then x else on_signal o.signalled x)
      ends true x h = h
      ends {files} false x h = on_signal-KeepsFiles files o.signalled x h
