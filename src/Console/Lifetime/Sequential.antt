-- ===== src/Console/Lifetime/Sequential.antt =====
-- An interleaved run that `main` itself ends is one in which the winner's flow runs alone.
use ipaversion.Base.{ℕ, ◌≡◌, ◌≢◌, ◌∙◌, inl, inr, refl, ap, Bool, true, false, Bool-cases}
use ipaversion.Base.Text.{Text}
use ipaversion.Addon.Race.Exclusion.{IsBuy}
use ipaversion.Console.Proxy.{turn_on_proxy}
use ipaversion.Console.Input.{handle_read, next_read}
use ipaversion.Console.Process.{Ending, returned, crashed, reading, capture}
use ipaversion.Console.Lifetime.{
  Exit, completed, panicked, Point, begun, proxied, notified, serving, released, asking, closing,
  exited, Life, proceed, handle_signal, signal, IsServed, flow_step, main_moves, flow_moves,
  signal_comes, signal_lost, server_fails, start_life, Lives, born, moved,
}
use ipaversion.Console.Lifetime.Asked.{Lives-IsKnown}
use ipaversion.Console.Lifetime.Ready.{Known, IsReady-lock, ready_step}
use ipaversion.Console.Lifetime.Alone.{Setting, first, alone, capture-alone, Captures}
use ipaversion.Console.Lifetime.Same.{
  Same, IsSame, unlock_then-IsSame, after_round-IsSame, create_then-IsSame, receive_then-IsSame,
  Asks-first,
}

-- How a run that no signal and no `log.Fatal` ends is ended in the sequential model.
pub data EndsAs : Exit → Ending → Type 0 where
  returns : EndsAs completed returned
  crashes : (p : Text) → EndsAs (panicked p) (crashed p)

pub EndsAs-ends : {x : Exit} {e : Ending} → EndsAs x e → e ≢ reading
EndsAs-ends returns h = cc
EndsAs-ends (crashes p) h = cc

module _ (g : Setting) where
  open g use {env, f, new_proxy, reads, flows, w}

  proceed-IsSame :
      (p : Point) (c : Life)
      → c.point ≡ p
      → Known env flows (first g) p c
      → Same g p c
      → IsSame g (proceed env f.skip_proxy new_proxy reads p c)
  unfolding proceed
  proceed-IsSame begun c at known h = elim (Bool-cases f.skip_proxy) [
    | inl skip ↦ rw skip h
    | inr shown ↦ rw shown (ap turn_on_proxy h)
  ]
  proceed-IsSame proxied c at known h = h
  proceed-IsSame notified c at known h = create_then-IsSame g new_proxy c refl h
  proceed-IsSame serving c at known h = receive_then-IsSame g c.addon.done c refl at known h
  proceed-IsSame released c at known (x, shell, addon) = (x, Asks-first g x c shell addon)
  proceed-IsSame (asking versions agent later') c at known (x, a) =
      after_round-IsSame g x versions agent later' c
        (handle_read env versions agent (next_read later') c.shell.world)
        (IsReady-lock env flows (first g) c known.0) a refl
  proceed-IsSame closing c at known (x, h) =
      unlock_then-IsSame g x c (IsReady-lock env flows (first g) c known) h
  proceed-IsSame (exited e) c at known h = simp at h

  handle_signal-IsSame : (skip : Bool) (c : Life) → IsSame g (handle_signal skip c)
  unfolding handle_signal
  handle_signal-IsSame true c = tt
  handle_signal-IsSame false c = tt

  signal-IsSame :
      (p : Point) (c : Life) → c.point ≡ p → Same g p c → IsSame g (signal f.skip_proxy p c)
  unfolding signal
  signal-IsSame begun c at h = tt
  signal-IsSame proxied c at h = tt
  signal-IsSame notified c at h = handle_signal-IsSame f.skip_proxy c
  signal-IsSame serving c at h = handle_signal-IsSame f.skip_proxy c
  signal-IsSame released c at h = handle_signal-IsSame f.skip_proxy c
  signal-IsSame (asking versions agent later') c at h = handle_signal-IsSame f.skip_proxy c
  signal-IsSame closing c at h = handle_signal-IsSame f.skip_proxy c
  signal-IsSame (exited e) c at h = simp at h

  flow_step_serving :
      (i : ℕ) (c : Life) → Same g serving c → Same g serving (flow_step env flows i c)
  unfolding flow_step
  flow_step_serving i c h = h

  flow_step-IsSame :
      (i : ℕ) (p : Point) (c : Life)
      → IsServed p
      → Known env flows (first g) p c
      → Same g p c
      → Same g p (flow_step env flows i c)
  flow_step-IsSame i begun c on known h = elim on [ ]
  flow_step-IsSame i proxied c on known h = elim on [ ]
  flow_step-IsSame i notified c on known h = elim on [ ]
  flow_step-IsSame i serving c on known h = flow_step_serving i c h
  flow_step-IsSame i released c on known h = rw (ready_step env flows (first g) i c known) h
  flow_step-IsSame i (asking versions agent later') c on known (x, a) =
      rw (ready_step env flows (first g) i c known.0) (x, a)
  flow_step-IsSame i closing c on known h = rw (ready_step env flows (first g) i c known) h
  flow_step-IsSame i (exited e) c on known h = elim on [ ]

  pub Lives-IsSame : {c : Life} → Lives env f new_proxy reads flows w c → IsSame g c
  unfolding flow_step
  Lives-IsSame born = refl
  Lives-IsSame (moved {c} l main_moves) =
      proceed-IsSame c.point c refl (Lives-IsKnown env f new_proxy reads flows w l) (Lives-IsSame l)
  Lives-IsSame (moved {c} l (flow_moves i on)) =
      flow_step-IsSame i c.point c on (Lives-IsKnown env f new_proxy reads flows w l)
        (Lives-IsSame l)
  Lives-IsSame (moved {c} l signal_comes) = signal-IsSame c.point c refl (Lives-IsSame l)
  Lives-IsSame (moved l (signal_lost e)) = Lives-IsSame l
  Lives-IsSame (moved {c} l (server_fails e on)) = tt

  pub Lives-Captures :
      {c : Life} {x : Exit} {e : Ending}
      → Lives env f new_proxy reads flows w c
      → c.point ≡ exited x
      → EndsAs x e
      → Captures g e c
  Lives-Captures {c} l at ends = ended c ends (let same = Lives-IsSame l in simp at at same)
    where
      ended : {x : Exit} {e : Ending} (d : Life) → EndsAs x e → Same g (exited x) d → Captures g e d
      ended d returns h = h
      ended d (crashes p) h = h

  -- Whatever order the goroutines' steps have: if the run ends, and neither a signal nor `log.Fatal`
  -- ends it, it ends as `capture` does where one flow with the target URL is the only one that the
  -- proxy passes, with the same files, requests and calls on the system proxy.
  pub sequential_lem :
      {c : Life} {x : Exit} {e : Ending}
      → Lives env f new_proxy reads flows w c
      → c.point ≡ exited x
      → EndsAs x e
      → (k : ℕ) × IsBuy (flows k)
        × (n : ℕ) × (capture env f (alone g k) n (start_life env f new_proxy reads flows w).shell
            ≡ (e, c.shell))
  sequential_lem l at ends =
      let (x, n, e) = Lives-Captures l at ends in
      (x.flow, x.buys, n, capture-alone g x.flow n x.buys x.created ∙ e)
