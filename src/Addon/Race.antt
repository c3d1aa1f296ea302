-- ===== src/Addon/Race.antt =====
-- Flows that the proxy handles at once: each runs `Addon.Request` in a goroutine of its own, and
-- their steps interleave. A step is the test of the mutex, the query for the latest version, the
-- query of one version, or the send on the channel.
pub mod Alone
pub mod Exclusion
pub mod Silence
use ipaversion.Base.{
  ℕ, zero, suc, ◌+◌, ◌-◌, ◌==◌, Bool, true, false, Option, none, some, List, length, get_elem?,
  if◌then◌else◌,
}
use ipaversion.Base.Int.{pos_part}
use ipaversion.Base.Text.{contains}
use ipaversion.Outcome.{Outcome, ok, err, panic}
use ipaversion.App.{AppInfo}
use ipaversion.World.{Env, Request}
use ipaversion.Addon.Range.{index_range}
use ipaversion.Addon.State.{Addon, Session}
use ipaversion.Addon.Replay.{replay_request}
use ipaversion.Addon.Handle.{
  retries, replay_input, replay_loop, user_agent_of, send_done, query_latest, handle_body,
  recover_done, target_url_substr,
}

-- Where the goroutine of a flow is.
pub data Stage : Type 0 where
  arrived : Stage
  querying : Stage
  replaying : AppInfo → ℕ → ℕ → ℕ → Stage
  over : Stage

abbrev signalled : Bool → Session → Session
signalled b s = record s { addon = send_done b s.addon }

-- What follows the query for the latest version; a panic is recovered.
unfoldable pub on_latest : Outcome AppInfo × Session → Stage × Session
on_latest (ok app, s) =
    let (start, end') =
      index_range (length app.software_version_external_identifiers) s.addon.start s.addon.end in
    (replaying app (pos_part end' - pos_part start) (pos_part start) 0, s)
on_latest (err e, s) = (over, s)
on_latest (panic p, s) = (over, signalled false s)

module _ (env : Env) (req : Request) where
  -- The round for one index.
  unfoldable pub on_version : AppInfo → ℕ → ℕ → ℕ → Option ℕ → Session → Stage × Session
  on_version latest rounds index i none s = (over, signalled false s)
  on_version latest rounds index i (some id) s = (
    replaying latest rounds (index + 1) (i + 1),
    replay_request env (replay_input req latest.software_version_external_identifier id index i)
        retries s,
  )

  unfoldable pub advance : Stage → Session → Stage × Session
  unfolding on_latest on_version
  advance arrived s =
      if contains req.url target_url_substr
      then (if s.addon.lock
          then (over, s)
          else (querying, record s { addon = record s.addon { lock = true } }))
      else (over, s)
  advance querying s = on_latest (
      query_latest env req
        (record s { addon = record s.addon { client_user_agent = user_agent_of req.header } }))
  advance (replaying latest zero index i) s = (over, signalled true s)
  advance (replaying latest (suc rounds) index i) s =
      on_version latest rounds index i
        (get_elem? latest.software_version_external_identifiers index) s
  advance over s = (over, s)

  -- `n` steps of one goroutine.
  unfoldable pub run : ℕ → Stage × Session → Stage × Session
  unfolding advance
  run zero (st, s) = (st, s)
  run (suc n) (st, s) = run n (advance st s)

-- The goroutines, the i-th of which has the i-th flow, over one add-on.
pub record System : Type 0 where
  pub session : Session
  pub stage : ℕ → Stage

abbrev pub set_stage : (ℕ → Stage) → ℕ → Stage → ℕ → Stage
set_stage f i st j = if i == j then st else f j

abbrev pub stepped : Env → (ℕ → Request) → ℕ → System → System
stepped env flows i c =
    let (st, s) = advance env (flows i) (c.stage i) c.session in
    record { session = s; stage = set_stage c.stage i st }

-- Any goroutine takes the next step.
pub data Step (env : Env) (flows : ℕ → Request) (c : System) : System → Type 0 where
  pick : (i : ℕ) → Step env flows c (stepped env flows i c)

abbrev pub start_of : Session → System
start_of s = record { session = s; stage = λ _. arrived }

pub data Reach (env : Env) (flows : ℕ → Request) (s : Session) : System → Type 0 where
  start : Reach env flows s (start_of s)
  later : {c d : System} → Reach env flows s c → Step env flows c d → Reach env flows s d
