-- ===== src/Console/Process.antt =====
-- `main`.
use ipaversion.Base.{ℕ, Bool, true, false, not, Option, none, some, List, [], ◌∷◌, if◌then◌else◌}
use ipaversion.Base.Int.{ℤ}
use ipaversion.Base.Text.{Text, Bytes, text_is_empty}
use ipaversion.Outcome.{Outcome, ok, err, panic, Result, done, failed}
use ipaversion.App.{get_app_info}
use ipaversion.Download.{download_app}
use ipaversion.World.{
  Env, World, Action, ◌>>=◌, ◌>>◌, lift, Request, Content, plain, gzip, gzip_cut, archive,
  unfinished, system_call, file_at,
}
use ipaversion.Addon.{Addon, Session}
use ipaversion.Addon.Once.{serve}
use ipaversion.Console.Proxy.{Shell, turn_on_proxy, turn_off_proxy, show_proxy}
use ipaversion.Console.Input.{handle_input}

pub record Flags : Type 0 where
  pub show_version : Bool
  pub show_help : Bool
  pub input : Text
  pub proxy_status : Bool
  pub cleanup : Bool
  pub skip_proxy : Bool
  pub dump : Bool
  pub start : ℤ
  pub end : ℤ

-- What the run meets: how `proxy.NewProxy` ends, the error of `p.Start` if it fails at once, the
-- flows that the proxy passes to the add-on, the reads from the standard input, and whether an
-- interrupt arrives once the run waits for more.
pub record Outside : Type 0 where
  pub new_proxy : Result (Unit {0})
  pub start_error : Option Text
  pub flows : List Request
  pub reads : List (Option Text)
  pub signalled : Bool

-- How a run ends: `main` returns, `log.Fatal`, a panic or a signal ends the process, or it still
-- waits for the channel or reads its input.
pub data Ending : Type 0 where
  returned : Ending
  fatal : Text → Ending
  crashed : Text → Ending
  interrupted : Ending
  waiting : Ending
  reading : Ending

abbrev pub fresh_addon : Flags → Addon
fresh_addon f = record {
  lock = false;
  done = [];
  start = f.start;
  end = f.end;
  history_versions = [];
  client_user_agent = [];
  dump_responses = f.dump;
  counter = 0;
}

-- What `os.ReadFile` reads.
abbrev pub content_bytes : (Content → Bytes) → Content → Bytes
content_bytes raw (plain b) = b
content_bytes raw (gzip b) = raw (gzip b)
content_bytes raw (gzip_cut b) = raw (gzip_cut b)
content_bytes raw (archive es) = raw (archive es)
content_bytes raw (unfinished es) = raw (unfinished es)

-- `-i`: the app that a file describes is downloaded.
unfoldable pub read_input : Env → (Content → Bytes) → Text → Action (Text × Bool)
unfolding system_call
read_input env raw path = do
  system_call
  data' ← file_at path
  app_info ← lift (get_app_info env (content_bytes raw data'))
  download_app env app_info [] false

-- An error of `-i` is fatal.
unfoldable pub ended : {A : Type 0} → Shell → Outcome A × World → Ending × Shell
ended s (ok a, w) = (returned, record s { world = w })
ended s (err e, w) = (fatal e, record s { world = w })
ended s (panic p, w) = (crashed p, record s { world = w })

-- `handleInput` returns no error.
unfoldable pub input_ended : Shell → Outcome Bool × World → Ending × Shell
input_ended s (ok true, w) = (returned, record s { world = w })
input_ended s (ok false, w) = (reading, record s { world = w })
input_ended s (err e, w) = (returned, record s { world = w })
input_ended s (panic p, w) = (crashed p, record s { world = w })

-- The deferred `recover`, and the goroutine that waits for a signal, which are there without `-s`.
unfoldable pub recovered_main : Bool → Ending × Shell → Ending × Shell
recovered_main false (crashed p, s) = (returned, turn_off_proxy s)
recovered_main b (e, s) = (e, s)

unfoldable pub on_signal : Bool → Ending × Shell → Ending × Shell
on_signal true (waiting, s) = (interrupted, turn_off_proxy s)
on_signal true (reading, s) = (interrupted, turn_off_proxy s)
on_signal b (e, s) = (e, s)

-- `main` after `ok := <-done`.
unfoldable pub after_done : Env → Flags → Outside → ℕ → Addon → Shell → Ending × Shell
unfolding input_ended
after_done env f o rounds addon s =
    let s' = if f.skip_proxy then s else turn_off_proxy s in
    input_ended s'
      (handle_input env addon.history_versions addon.client_user_agent rounds o.reads s'.world)

-- `ok := <-done` waits for the first value on the channel.
unfoldable pub wait_done : Env → Flags → Outside → ℕ → Shell → List Bool → Addon → Ending × Shell
unfolding after_done
wait_done env f o rounds s [] addon = (waiting, s)
wait_done env f o rounds s (b ∷ bs) addon = after_done env f o rounds addon s

unfoldable pub captured : Env → Flags → Outside → ℕ → Shell → Session → Ending × Shell
unfolding wait_done
captured env f o rounds s t =
    wait_done env f o rounds (record s { world = t.world }) t.addon.done t.addon

unfoldable pub start_proxy : Env → Flags → Outside → ℕ → Shell → Option Text → Ending × Shell
unfolding captured
start_proxy env f o rounds s (some e) = (fatal e, s)
start_proxy env f o rounds s none =
    captured env f o rounds s
      (serve env o.flows (record { addon = fresh_addon f; world = s.world }))

unfoldable pub new_proxy_then :
    Env → Flags → Outside → ℕ → Shell → Result (Unit {0}) → Ending × Shell
unfolding start_proxy
new_proxy_then env f o rounds s (failed e) = (fatal e, s)
new_proxy_then env f o rounds s (done _) = start_proxy env f o rounds s o.start_error

-- `main` when no flag has ended it, with `rounds` rounds of `handleInput`.
unfoldable pub capture : Env → Flags → Outside → ℕ → Shell → Ending × Shell
unfolding new_proxy_then recovered_main on_signal turn_on_proxy turn_off_proxy
capture env f o rounds s =
    let s' = if f.skip_proxy then s else turn_on_proxy s in
    let e = recovered_main f.skip_proxy (new_proxy_then env f o rounds s' o.new_proxy) in
    if f.skip_proxy then e else on_signal o.signalled e

-- `main`
unfoldable pub main : Env → (Content → Bytes) → Flags → Outside → ℕ → Shell → Ending × Shell
unfolding text_is_empty ended capture read_input show_proxy turn_off_proxy
main env raw f o rounds s =
    if f.show_help
    then (returned, s)
    else if f.show_version
    then (returned, s)
    else if not (text_is_empty f.input)
    then ended s (read_input env raw f.input s.world)
    else if f.proxy_status
    then (returned, show_proxy s)
    else if f.cleanup
    then (returned, turn_off_proxy s)
    else capture env f o rounds s
