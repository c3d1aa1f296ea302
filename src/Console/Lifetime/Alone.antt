-- ===== src/Console/Lifetime/Alone.antt =====
-- The run of `main` in which the proxy passes one flow alone, and the rounds of an interleaved one.
use ipaversion.Base.{
  ℕ, ◌+◌, ◌≡◌, inl, inr, refl, ap, ◌∙◌, sym, Bool, true, false, Bool-cases, Option, none, List, [],
  ◌∷◌, if◌then◌else◌,
}
use ipaversion.Base.Text.{Text}
use ipaversion.Outcome.{Outcome, Result, done}
use ipaversion.App.{AppInfo}
use ipaversion.World.{Env, World, Request}
use ipaversion.Addon.{Session, handle_buy_request, on_request}
use ipaversion.Addon.Once.{serve, locked, handle_buy_request-Signals}
use ipaversion.Addon.Race.Exclusion.{IsBuy}
use ipaversion.Console.Proxy.{Shell, turn_on_proxy, turn_off_proxy, turn_on_proxy-world}
use ipaversion.Console.Input.{handle_read, next_read, later_reads, then_loop, handle_input}
use ipaversion.Console.Process.{
  Flags, Outside, Ending, fresh_addon, input_ended, recovered_main, on_signal, after_done,
  wait_done, captured, start_proxy, new_proxy_then, capture,
}
use ipaversion.Console.Lifetime.{Life}

-- What an interleaved run is over.
pub record Setting : Type 0 where
  pub env : Env
  pub f : Flags
  pub new_proxy : Result (Unit {0})
  pub reads : List (Option Text)
  pub flows : ℕ → Request
  pub w : World

no_signal : (b : Bool) (x : Ending × Shell) → (if b then x else on_signal false x) ≡ x
unfolding on_signal
no_signal true x = refl
no_signal false x = refl

-- Two shells that differ in the world only, and one of which has the world `v`.
pub with_world :
    (w v : World) (s t : Shell)
    → record s { world = w } ≡ record t { world = w }
    → s.world ≡ v
    → s ≡ record t { world = v }
with_world w v s t e h =
    ap (λ u. record s { world = u }) h ∙ ap (λ (u : Shell). record u { world = v }) e

module _ (g : Setting) where
  open g use {env, f, new_proxy, reads, flows, w}

  abbrev pub first : Session
  first = record { addon = fresh_addon f; world = w }

  abbrev pub new_shell : Shell
  new_shell = record { system_proxy = false; proxy_calls = []; world = w }

  -- The shell once the proxy is on, after the flow `k`, and for `handleInput`.
  abbrev pub on_shell : Shell
  on_shell = if f.skip_proxy then new_shell else turn_on_proxy new_shell

  abbrev pub won : ℕ → Session
  won k = handle_buy_request env (flows k) (locked first)

  abbrev pub won_shell : ℕ → Shell
  won_shell k = record on_shell { world = (won k).world }

  abbrev pub input_shell : ℕ → Shell
  input_shell k = if f.skip_proxy then won_shell k else turn_off_proxy (won_shell k)

  -- The run in which the proxy passes the flow `k` alone.
  abbrev pub alone : ℕ → Outside
  alone k = record {
    new_proxy = new_proxy;
    start_error = none;
    flows = flows k ∷ [];
    reads = reads;
    signalled = false;
  }

  pub serve-won : (k : ℕ) → IsBuy (flows k) → serve env (flows k ∷ []) first ≡ won k
  unfolding serve on_request
  serve-won k buy = rw buy

  wait_won :
      (k n : ℕ) (s : Shell)
      → wait_done env f (alone k) n s (won k).addon.done (won k).addon
        ≡ after_done env f (alone k) n (won k).addon s
  unfolding wait_done
  wait_won k n s =
      let (b, sent, _) = handle_buy_request-Signals env (flows k) (locked first) in rw sent

  started_alone :
      (k n : ℕ) (s : Shell) (r : Result (Unit {0}))
      → IsBuy (flows k)
      → s.world ≡ w
      → r ≡ done tt
      → new_proxy_then env f (alone k) n s r
        ≡ after_done env f (alone k) n (won k).addon (record s { world = (won k).world })
  unfolding new_proxy_then start_proxy captured
  started_alone k n s r buy at created =
      rw (created, at, serve-won k buy) (wait_won k n (record s { world = (won k).world }))

  pub on_shell-world : on_shell.world ≡ w
  on_shell-world = elim (Bool-cases f.skip_proxy) [
    | inl skip ↦ rw skip
    | inr shown ↦ rw shown (turn_on_proxy-world new_shell)
  ]

  pub capture-alone :
      (k n : ℕ)
      → IsBuy (flows k)
      → new_proxy ≡ done tt
      → capture env f (alone k) n new_shell
        ≡ recovered_main f.skip_proxy (after_done env f (alone k) n (won k).addon (won_shell k))
  unfolding capture
  capture-alone k n buy created =
      no_signal f.skip_proxy
        (recovered_main f.skip_proxy (new_proxy_then env f (alone k) n on_shell new_proxy))
      ∙ ap (recovered_main f.skip_proxy)
          (started_alone k n on_shell new_proxy buy on_shell-world created)

  -- A flow that wins, where the proxy is created.
  pub record Winner : Type 0 where
    pub flow : ℕ
    pub buys : IsBuy (flows flow)
    pub created : new_proxy ≡ done tt

  -- The loop has done some rounds over the run of the flow `k` alone.
  pub record Asks (k : ℕ) (versions : List AppInfo) (agent : Text) (later' : List (Option Text))
      (s : Shell) : Type 0 where
    pub listed : versions ≡ (won k).addon.history_versions
    pub signed : agent ≡ (won k).addon.client_user_agent
    pub switched : record s { world = w } ≡ record (input_shell k) { world = w }
    pub rounds : ℕ
    pub looped :
        (m : ℕ)
        → handle_input env versions agent (rounds + m) reads (input_shell k).world
          ≡ handle_input env versions agent m later' s.world

  -- Some winner's run alone ends so, in some rounds of the loop.
  abbrev pub Captures : Ending → Life → Type 0
  Captures e c =
      (x : Winner) × (n : ℕ) × (recovered_main f.skip_proxy
          (after_done env f (alone x.flow) n (won x.flow).addon (won_shell x.flow))
        ≡ (e, c.shell))

  abbrev pub Leaves : Ending → ℕ → Shell → Type 0
  Leaves e k s = (n : ℕ) × (after_done env f (alone k) n (won k).addon (won_shell k) ≡ (e, s))

  -- One round more.
  one_more :
      (k : ℕ) (versions : List AppInfo) (agent : Text) (later' : List (Option Text)) (c : Life)
      (a : Asks k versions agent later' c.shell)
      → handle_input env
          (won k).addon.history_versions
          (won k).addon.client_user_agent
          (a.rounds + 1)
          reads
          (input_shell k).world
        ≡ then_loop
            (handle_read env versions agent (next_read later') c.shell.world)
            (handle_input env versions agent 0 (later_reads later'))
  unfolding handle_input
  one_more k versions agent later' c a = rw (← a.listed, ← a.signed) (a.looped 1)

  -- The loop's last round ends the run alone.
  pub last_round :
      (k : ℕ) (versions : List AppInfo) (agent : Text) (later' : List (Option Text)) (c : Life)
      (a : Asks k versions agent later' c.shell) (r : Outcome Bool) (v : World) (e : Ending)
      → then_loop
          (handle_read env versions agent (next_read later') c.shell.world)
          (handle_input env versions agent 0 (later_reads later'))
        ≡ (r, v)
      → ((s : Shell) → input_ended s (r, v) ≡ (e, record s { world = v }))
      → Leaves e k (record c.shell { world = v })
  unfolding after_done
  last_round k versions agent later' c a r v e round ends = (
    a.rounds + 1,
    ap (input_ended (input_shell k)) (one_more k versions agent later' c a ∙ round)
        ∙ ends (input_shell k)
        ∙ ap (λ (s : Shell). (e, record s { world = v })) (sym a.switched),
  )
