-- ===== src/Console/Lifetime/Bought.antt =====
-- An interleaved run from the buy request to the package.
use ipaversion.Base.{
  arith, ◌+◌, ℕ, zero, suc, ◌≡◌, ◌≢◌, refl, ap, ◌∙◌, sym, Bool, true, false, Option, none, List, [],
  ◌∷◌,
}
use ipaversion.Base.Text.{Text, Bytes}
use ipaversion.Outcome.{Outcome, ok, err, panic, Result, done}
use ipaversion.App.{AppInfo}
use ipaversion.World.{Env, World, Request, Entry, Files}
use ipaversion.World.Quiet.{quiet}
use ipaversion.Addon.Race.Exclusion.{IsBuy}
use ipaversion.Console.Proxy.{Shell}
use ipaversion.Console.Input.{handle_input}
use ipaversion.Console.Process.{
  Flags, Outside, Ending, returned, reading, input_ended, recovered_main, after_done, capture,
}
use ipaversion.Console.Whole.{GoesWell, final_shell, capture_whole}
use ipaversion.Console.Cleanup.{fresh}
use ipaversion.Console.Lifetime.{Exit, completed, exited, Life, Lives, Leads, Leads-Lives}
use ipaversion.Console.Lifetime.Alone.{Setting, won, input_shell, Winner, alone, capture-alone}
use ipaversion.Console.Lifetime.Sequential.{EndsAs, returns, crashes, EndsAs-ends, sequential_lem}
use ipaversion.Console.Lifetime.Finishing.{LoopEnds, point-Finishes}

-- The run in which the proxy passes `req` alone.
abbrev pub with_flow : Result (Unit {0}) → List (Option Text) → Request → Outside
with_flow created reads req = record {
  new_proxy = created;
  start_error = none;
  flows = req ∷ [];
  reads = reads;
  signalled = false;
}

reading_ended :
    (b : Bool) (s : Shell) (y : Outcome Bool × World)
    → y.0 ≡ ok false
    → (recovered_main b (input_ended s y)).0 ≡ reading
unfolding recovered_main input_ended
reading_ended true s (ok true, w) h = cc
reading_ended false s (ok true, w) h = cc
reading_ended true s (ok false, w) h = refl
reading_ended false s (ok false, w) h = refl
reading_ended b s (err e, w) h = cc
reading_ended b s (panic p, w) h = cc

-- A run whose input loop still runs is reading.
still_reading :
    (g : Setting) (k n : ℕ)
    → IsBuy (g.flows k)
    → g.new_proxy ≡ done tt
    → (handle_input g.env
        (won g k).addon.history_versions
        (won g k).addon.client_user_agent
        n
        g.reads
        (input_shell g k).world).0
      ≡ ok false
    → (capture g.env g.f (alone g k) n (fresh g.w)).0 ≡ reading
unfolding after_done
still_reading g k n buys created running =
    ap (λ (x : Ending × Shell). x.0) (capture-alone g k n buys created)
    ∙ reading_ended g.f.skip_proxy (input_shell g k) _ running

EndsAs-returned : {x : Exit} {e : Ending} → EndsAs x e → e ≡ returned → x ≡ completed
EndsAs-returned returns h = refl
EndsAs-returned (crashes p) h = cc

module _ (env : Env) (f : Flags) (new_proxy : Result (Unit {0})) (reads : List (Option Text))
    (fs : Files) (ws : Text → Option (List Entry)) (n : ℕ) (rs : List Request) (req : Request)
    (latest chosen : AppInfo) (es extra : List Entry) (bytes : Bytes) where
  -- The run with `req` alone goes well.
  abbrev pub Sells : Type 0
  Sells = GoesWell env f (with_flow new_proxy reads req) fs ws n rs req latest chosen es extra bytes

  -- What it leaves.
  abbrev pub sold_shell : Sells → Shell
  sold_shell w =
      final_shell env f (with_flow new_proxy reads req) fs ws n rs req latest chosen es extra bytes
        w

  module _ {flows : ℕ → Request} (w : Sells) (only : (k : ℕ) → IsBuy (flows k) → flows k ≡ req)
      (shown : f.skip_proxy ≡ false) (plain_flags : f.dump ≡ false) where
    abbrev g : Setting
    g = record {
      env = env;
      f = f;
      new_proxy = new_proxy;
      reads = reads;
      flows = flows;
      w = quiet fs ws n rs;
    }

    captures :
        (k m : ℕ)
        → IsBuy (flows k)
        → capture env f (alone g k) (suc m) (fresh (quiet fs ws n rs)) ≡ (returned, sold_shell w)
    captures k m buys = rw (only k buys) (
        capture_whole env f (with_flow new_proxy reads req) fs ws n rs req latest chosen es extra
          bytes w m shown plain_flags)

    loop_ends : (x : Winner g) → LoopEnds g x
    loop_ends x = (
      1,
      λ m running.
          let at_last = still_reading g x.flow (m + 1) x.buys x.created running in
          let more : m + 1 ≡ suc m = omega arith in
          let back =
            ap (λ (y : Ending × Shell). y.0)
              (sym (captures x.flow m x.buys)
                ∙ ap (λ r. capture env f (alone g x.flow) r (fresh (quiet fs ws n rs)))
                    (sym more)) in
          let same = back ∙ at_last in cc,
    )

    -- A run with no round is reading, and one with more is the run with `req` alone.
    settled :
        {c : Life} {x : Exit} {e : Ending}
        → Lives env f new_proxy reads flows (quiet fs ws n rs) c
        → c.point ≡ exited x
        → EndsAs x e
        → (e ≡ returned) × (c.shell ≡ sold_shell w)
    unfolding handle_input
    settled {c} {x} {e} l at ends =
        let (k, buys, rounds, whole) = sequential_lem g l at ends in at_rounds k rounds buys whole
      where
        at_rounds :
            (k rounds : ℕ)
            → IsBuy (flows k)
            → capture env f (alone g k) rounds (fresh (quiet fs ws n rs)) ≡ (e, c.shell)
            → (e ≡ returned) × (c.shell ≡ sold_shell w)
        at_rounds k zero buys whole = absurd (
            EndsAs-ends ends (
              ap (λ (y : Ending × Shell). y.0) (sym whole)
              ∙ still_reading g k zero buys w.created refl))
        at_rounds k (suc m) buys whole =
            let same = sym whole ∙ captures k m buys in
            (ap (λ (y : Ending × Shell). y.0) same, ap (λ (y : Ending × Shell). y.1) same)

  -- Whatever order the goroutines' steps have: in a world where no system call fails, a run without -s
  -- and -dump that gets from the proxy one buy request, any number of times and among any other flows,
  -- which the store answers, and whose user types the index of a version that the store serves, has,
  -- if it returns, done what the run with that request alone does: the proxy is off, the version's
  -- package is there under its name, and no other file has changed.
  pub interleaved_lem :
      {flows : ℕ → Request} {c : Life} (w : Sells)
      → ((k : ℕ) → IsBuy (flows k) → flows k ≡ req)
      → f.skip_proxy ≡ false
      → f.dump ≡ false
      → Lives env f new_proxy reads flows (quiet fs ws n rs) c
      → c.point ≡ exited completed
      → c.shell ≡ sold_shell w
  interleaved_lem w only shown plain_flags l at = (settled w only shown plain_flags l at returns).1

  -- Whatever order the goroutines' steps have had: in a world where no system call fails, a run
  -- without -s and -dump that gets from the proxy one buy request, any number of times and among
  -- any other flows, which the store answers, and whose user types the index of a version that the
  -- store serves, is nowhere stuck: from wherever it has got to before its end, steps of the main
  -- goroutine and of the flows bring it to the end of main, with the proxy off and the version's
  -- package under its name, and no other file changed.
  pub interleaved_returns :
      {flows : ℕ → Request} {c : Life} (k : ℕ) (w : Sells)
      → ((j : ℕ) → IsBuy (flows j) → flows j ≡ req)
      → IsBuy (flows k)
      → f.skip_proxy ≡ false
      → f.dump ≡ false
      → Lives env f new_proxy reads flows (quiet fs ws n rs) c
      → ((x : Exit) → c.point ≢ exited x)
      → (d : Life) × Leads env f new_proxy reads flows c d
        × (d.point ≡ exited completed)
        × (d.shell ≡ sold_shell w)
  interleaved_returns {flows} {c} k w only buys shown plain_flags l on =
      let (d, h, stop) =
        point-Finishes (g w only shown plain_flags) k buys w.created
          (loop_ends w only shown plain_flags) c.point l refl on in
      let (x, e, at, ends) = stop in
      let (back, shell) =
        settled w only shown plain_flags (Leads-Lives env f new_proxy reads flows l h) at ends in
      (d, h, at ∙ ap exited (EndsAs-returned ends back), shell)
