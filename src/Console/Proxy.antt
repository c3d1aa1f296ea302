-- ===== src/Console/Proxy.antt =====
-- The system proxy: what the program calls of the `sysproxy` library, in order.
use ipaversion.Base.{ℕ, ◌≡◌, inl, inr, Bool, Bool-cases, true, List, [], ◌∷◌, ◌++◌, if◌then◌else◌}
use ipaversion.Base.Text.{Text, codes}
use ipaversion.World.{World}

-- The calls of `sysproxy.SysProxy`, and `sysproxy.New`.
pub data ProxyCall : Type 0 where
  create_proxy : ProxyCall
  set_on : Text → ℕ → ProxyCall
  set_off : Text → ℕ → ProxyCall
  print_status : ProxyCall

-- The process: whether `systemProxy` is set, the calls made on it, and the world.
pub record Shell : Type 0 where
  pub system_proxy : Bool
  pub proxy_calls : List ProxyCall
  pub world : World

abbrev pub host : Text
host = codes "127.0.0.1"

abbrev pub port : ℕ
port = 8080

abbrev called : ProxyCall → Shell → Shell
called c s = record s { proxy_calls = s.proxy_calls ++ (c ∷ []) }

-- `if systemProxy == nil { systemProxy = sysproxy.New() }`
unfoldable pub with_proxy : Shell → Shell
with_proxy s = if s.system_proxy then s else record (called create_proxy s) { system_proxy = true }

-- `turnOnProxy`
unfoldable pub turn_on_proxy : Shell → Shell
unfolding with_proxy
turn_on_proxy s = called (set_on host port) (with_proxy s)

-- `turnOffProxy`
unfoldable pub turn_off_proxy : Shell → Shell
turn_off_proxy s = if s.system_proxy then called (set_off host port) s else s

-- `showProxy`
unfoldable pub show_proxy : Shell → Shell
unfolding with_proxy
show_proxy s = called print_status (with_proxy s)

-- The calls on the system proxy leave the world alone.
pub turn_on_proxy-world : (s : Shell) → (turn_on_proxy s).world ≡ s.world
unfolding turn_on_proxy with_proxy
turn_on_proxy-world s = elim (Bool-cases s.system_proxy) [ inl set ↦ rw set | inr unset ↦ rw unset ]

pub turn_off_proxy-world : (s : Shell) → (turn_off_proxy s).world ≡ s.world
unfolding turn_off_proxy
turn_off_proxy-world s = elim (Bool-cases s.system_proxy) [
  | inl set ↦ rw set
  | inr unset ↦ rw unset
]
