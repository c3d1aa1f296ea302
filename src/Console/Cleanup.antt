-- ===== src/Console/Cleanup.antt =====
-- The system proxy when a run ends.
use ipaversion.Base.{
  ℕ, ◌≡◌, refl, Bool, true, false, ◌||◌, Option, none, some, List, [], ◌∷◌, Bool-cases, inl, inr,
}
use ipaversion.Base.Text.{Text, Bytes, text_is_empty}
use ipaversion.Outcome.{Outcome, ok, err, panic, Result, done, failed}
use ipaversion.World.{Env, World, Content}
use ipaversion.Addon.{Addon}
use ipaversion.Console.Proxy.{
  ProxyCall, create_proxy, set_on, set_off, print_status, Shell, with_proxy, turn_on_proxy,
  turn_off_proxy,
}
use ipaversion.Console.Process.{
  ended, input_ended, recovered_main, on_signal, after_done, wait_done, captured, start_proxy,
  new_proxy_then, Flags, Outside, Ending, returned, fatal, crashed, interrupted, waiting, reading,
  capture, main,
}

-- A process at its start: `systemProxy` is nil.
abbrev pub fresh : World → Shell
fresh w = record { system_proxy = false; proxy_calls = []; world = w }

-- Whether the proxy is on after the calls, if it was as `b` says before them.
unfoldable pub is_on : Bool → List ProxyCall → Bool
is_on b [] = b
is_on b (create_proxy ∷ cs) = is_on b cs
is_on b (set_on h p ∷ cs) = is_on true cs
is_on b (set_off h p ∷ cs) = is_on false cs
is_on b (print_status ∷ cs) = is_on b cs

-- The endings that leave the proxy on.
abbrev pub left_on : Ending → Bool
left_on (fatal e) = true
left_on waiting = true
left_on returned = false
left_on (crashed p) = false
left_on interrupted = false
left_on reading = false

abbrev Fine : Ending × Shell → Type 0
Fine (e, t) = is_on false t.proxy_calls ≡ left_on e

abbrev guarded : Bool → Ending × Shell → Ending × Shell
guarded b x = on_signal b (recovered_main false x)

input_ended-Fine :
    (b : Bool) (w : World) (x : Outcome Bool × World)
    → Fine (guarded b (input_ended (turn_off_proxy (turn_on_proxy (fresh w))) x))
unfolding is_on on_signal recovered_main input_ended turn_off_proxy turn_on_proxy with_proxy
input_ended-Fine true w (ok true, v) = refl
input_ended-Fine true w (ok false, v) = refl
input_ended-Fine true w (err e, v) = refl
input_ended-Fine true w (panic p, v) = refl
input_ended-Fine false w (ok true, v) = refl
input_ended-Fine false w (ok false, v) = refl
input_ended-Fine false w (err e, v) = refl
input_ended-Fine false w (panic p, v) = refl

module _ (env : Env) (f : Flags) (o : Outside) (rounds : ℕ) (shown : f.skip_proxy ≡ false) where
  wait_done-Fine :
      (b : Bool) (w : World) (sent : List Bool) (addon : Addon)
      → Fine (guarded b (wait_done env f o rounds (turn_on_proxy (fresh w)) sent addon))
  unfolding is_on on_signal recovered_main turn_off_proxy turn_on_proxy with_proxy wait_done
      after_done
  wait_done-Fine true w [] addon = refl
  wait_done-Fine false w [] addon = refl
  wait_done-Fine b w (d ∷ ds) addon = rw shown (input_ended-Fine b w _)

  start_proxy-Fine :
      (b : Bool) (w : World) (e : Option Text)
      → Fine (guarded b (start_proxy env f o rounds (turn_on_proxy (fresh w)) e))
  unfolding is_on on_signal recovered_main turn_off_proxy turn_on_proxy with_proxy start_proxy
      captured
  start_proxy-Fine true w (some e) = refl
  start_proxy-Fine false w (some e) = refl
  start_proxy-Fine b w none = wait_done-Fine b _ _ _

  new_proxy_then-Fine :
      (b : Bool) (w : World) (r : Result (Unit {0}))
      → Fine (guarded b (new_proxy_then env f o rounds (turn_on_proxy (fresh w)) r))
  unfolding is_on on_signal recovered_main turn_off_proxy turn_on_proxy with_proxy new_proxy_then
  new_proxy_then-Fine true w (failed e) = refl
  new_proxy_then-Fine false w (failed e) = refl
  new_proxy_then-Fine b w (done u) = start_proxy-Fine b w o.start_error

-- In a new process without `-s`, a run that captures leaves the system proxy on if it ends by
-- `log.Fatal` or still waits for the add-on, and has turned it off in every other case.
pub capture_lem :
    (env : Env) (f : Flags) (o : Outside) (rounds : ℕ) (w : World)
    → f.skip_proxy ≡ false
    → let (e, t) = capture env f o rounds (fresh w) in is_on false t.proxy_calls ≡ left_on e
unfolding capture
capture_lem env f o rounds w shown =
    simp shown (new_proxy_then-Fine env f o rounds shown o.signalled w o.new_proxy)

-- The calls on the proxy are those before.
abbrev Silent : Shell → Ending × Shell → Type 0
Silent s x = x.1.proxy_calls ≡ s.proxy_calls

ended-Silent : {A : Type 0} (s : Shell) (x : Outcome A × World) → Silent s (ended s x)
unfolding ended
ended-Silent s (ok a, w) = refl
ended-Silent s (err e, w) = refl
ended-Silent s (panic p, w) = refl

input_ended-Silent : (s : Shell) (x : Outcome Bool × World) → Silent s (input_ended s x)
unfolding input_ended
input_ended-Silent s (ok true, w) = refl
input_ended-Silent s (ok false, w) = refl
input_ended-Silent s (err e, w) = refl
input_ended-Silent s (panic p, w) = refl

module _ (env : Env) (f : Flags) (o : Outside) (rounds : ℕ) (skipped : f.skip_proxy ≡ true) where
  wait_done-Silent :
      (s : Shell) (sent : List Bool) (addon : Addon)
      → Silent s (wait_done env f o rounds s sent addon)
  unfolding wait_done after_done
  wait_done-Silent s [] addon = refl
  wait_done-Silent s (d ∷ ds) addon = rw skipped (input_ended-Silent s _)

  start_proxy-Silent : (s : Shell) (e : Option Text) → Silent s (start_proxy env f o rounds s e)
  unfolding start_proxy captured
  start_proxy-Silent s (some e) = refl
  start_proxy-Silent s none = wait_done-Silent (record s { world = _ }) _ _

  new_proxy_then-Silent :
      (s : Shell) (r : Result (Unit {0})) → Silent s (new_proxy_then env f o rounds s r)
  unfolding new_proxy_then
  new_proxy_then-Silent s (failed e) = refl
  new_proxy_then-Silent s (done u) = start_proxy-Silent s o.start_error

  recovered_main-Silent :
      (s : Shell) (x : Ending × Shell) → Silent s x → Silent s (recovered_main true x)
  unfolding recovered_main
  recovered_main-Silent s (e, t) h = h

  capture-Silent : (s : Shell) → Silent s (capture env f o rounds s)
  unfolding capture
  capture-Silent s = simp skipped (
      recovered_main-Silent s (new_proxy_then env f o rounds s o.new_proxy)
        (new_proxy_then-Silent s o.new_proxy))

-- A process that starts with `-c` or `-s`, and without `-ps`, calls nothing on the system proxy: with
-- `-c`, it is not turned off.
pub main_silent :
    (env : Env) (raw : Content → Bytes) (f : Flags) (o : Outside) (rounds : ℕ) (w : World)
    → f.proxy_status ≡ false
    → (f.cleanup || f.skip_proxy) ≡ true
    → (main env raw f o rounds (fresh w)).1.proxy_calls ≡ []
unfolding main turn_off_proxy
main_silent env raw f o rounds w h1 h2 = elim (Bool-cases f.show_help) [
  | inl help ↦ simp help refl
  | inr no_help ↦ elim (Bool-cases f.show_version) [
    | inl version ↦ simp (no_help, version) refl
    | inr no_version ↦ elim (Bool-cases (text_is_empty f.input)) [
      | inr given ↦ simp (no_help, no_version, given) (ended-Silent (fresh w) _)
      | inl not_given ↦ elim (Bool-cases f.cleanup) [
        | inl cleaned ↦ simp (no_help, no_version, not_given, h1, cleaned) refl
        | inr kept ↦
            simp (no_help, no_version, not_given, h1, kept)
              (capture-Silent env f o rounds (simp kept at h2) (fresh w))
      ]
    ]
  ]
]
