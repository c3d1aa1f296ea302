-- ===== src/Console/Lifetime/Switched.antt =====
-- The system proxy over the life of a capturing run, whatever order the goroutines' steps have.
use ipaversion.Base.{◌≡◌, true, false, []}
use ipaversion.Base.Text.{Text}
use ipaversion.Outcome.{Outcome}
use ipaversion.World.{World}
use ipaversion.Console.Proxy.{Shell}
use ipaversion.Console.Cleanup.{is_on}
use ipaversion.Console.Lifetime.{
  Exit, completed, fatal_error, panicked, cleaned_up, killed, unlocked_twice, Point, begun, proxied,
  notified, serving, released, asking, closing, exited, Life,
}

-- The ends that may leave the proxy on.
abbrev pub MayStayOn : Exit → Type 0
MayStayOn completed = ⊥
MayStayOn (fatal_error e) = Unit
MayStayOn (panicked p) = ⊥
MayStayOn cleaned_up = ⊥
MayStayOn killed = Unit
MayStayOn unlocked_twice = ⊥

abbrev On : Shell → Type 0
On s = (s.system_proxy ≡ true) × (is_on false s.proxy_calls ≡ true)

abbrev Off : Shell → Type 0
Off s = (s.system_proxy ≡ true) × (is_on false s.proxy_calls ≡ false)

abbrev Switch : Point → Shell → Type 0
Switch begun s = (s.system_proxy ≡ false) × (s.proxy_calls ≡ [])
Switch proxied s = On s
Switch notified s = On s
Switch serving s = On s
Switch released s = On s
Switch (asking versions agent reads) s = Off s
Switch closing s = Off s
Switch (exited completed) s = Off s
Switch (exited (fatal_error e)) s = Unit
Switch (exited (panicked p)) s = ⊥
Switch (exited cleaned_up) s = Off s
Switch (exited killed) s = Unit
Switch (exited unlocked_twice) s = Off s

-- A state in which the proxy is as its point says.
abbrev IsSwitched : Life → Type 0
IsSwitched c = Switch c.point c.shell
