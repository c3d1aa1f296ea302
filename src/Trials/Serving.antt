-- ===== src/Trials/Serving.antt =====
-- test/proxy-test/proxy-test.go: a proxy of go-mitmproxy with its log add-on.
use ipaversion.Base.{ℕ, ◌*◌, ◌≡◌, refl, Option, none, some}
use ipaversion.Base.Text.{Text, codes}
use ipaversion.Outcome.{Result, done, failed}

-- The fields of `proxy.Options` that are set.
pub record Options : Type 0 where
  pub addr : Text
  pub stream_large_bodies : ℕ

abbrev pub trial_options : Options
trial_options = record { addr = codes ":9080"; stream_large_bodies = 1024 * 1024 * 5 }

-- The library: how `NewProxy` ends, `AddAddon` of a log add-on, and what `Start` returns, if it does:
-- an error or nil.
module _ {Proxy : Type 0} (new_proxy : Options → Result Proxy) (add_log : Proxy → Proxy)
    (start : Proxy → Option (Option Text)) where
  run_proxy : Result Proxy → Option (Option Text)
  run_proxy (failed e) = some (some e)
  run_proxy (done p) = start (add_log p)

  -- `main`: what the `log.Fatal` that ends it prints, unless it serves on.
  unfoldable proxy_trial : Option (Option Text)
  unfolding run_proxy
  proxy_trial = run_proxy (new_proxy trial_options)

  runs_on :
      (r : Result Proxy)
      → run_proxy r ≡ none
      → (p : Proxy) × (r ≡ done p) × (start (add_log p) ≡ none)
  unfolding run_proxy
  runs_on (failed e) h = cc
  runs_on (done p) h = (p, refl, h)

  -- The trial serves on only with a proxy that was created and that has the log add-on.
  proxy_trial_serves :
      proxy_trial ≡ none
      → (p : Proxy) × (new_proxy trial_options ≡ done p) × (start (add_log p) ≡ none)
  unfolding proxy_trial
  proxy_trial_serves h = runs_on (new_proxy trial_options) h
