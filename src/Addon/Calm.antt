-- ===== src/Addon/Calm.antt =====
-- Without `-dump`, the add-on leaves the files alone.
use ipaversion.Base.{◌≡◌, refl, ◌∙◌, true, false, Option, List, [], arith}
use ipaversion.Base.Text.{Text}
use ipaversion.Http.{new_request, do_request, with_header, clone_request}
use ipaversion.World.{Env, Request, Entry, Files}
use ipaversion.World.Quiet.{quiet}
use ipaversion.Addon.Kept.{IsKept, handle_buy_request-IsKept}
use ipaversion.Addon.State.{Addon, Session}
use ipaversion.Addon.Replay.{ReplayRequestInput, maybe_dump, replay_attempt}
use ipaversion.Addon.Handle.{query_latest, send_done, handle_buy_request}

-- No response is dumped and no system call fails; the files and the open writers are these.
pub record IsCalm (fs : Files) (ws : Text → Option (List Entry)) (s : Session) : Type 0 where
  pub no_dump : s.addon.dump_responses ≡ false
  pub files_kept : s.world.files ≡ fs
  pub writers_kept : s.world.writers ≡ ws
  pub no_faults : s.world.faults ≡ []

pub quiet_world :
    (fs : Files) (ws : Text → Option (List Entry)) (s : Session)
    → IsCalm fs ws s
    → s.world ≡ quiet fs ws s.world.calls s.world.sent
quiet_world fs ws s c = λ i. record {
  files = c.files_kept i;
  writers = c.writers_kept i;
  faults = c.no_faults i;
  calls = s.world.calls;
  sent = s.world.sent;
}

module _ (fs : Files) (ws : Text → Option (List Entry)) (env : Env) where
  replay_attempt-IsCalm :
      (inp : ReplayRequestInput) (s : Session)
      → IsCalm fs ws s
      → IsCalm fs ws (replay_attempt env inp s).1
  unfolding replay_attempt new_request do_request with_header maybe_dump
  replay_attempt-IsCalm inp s c = ground arith

  query_latest-IsCalm :
      (req : Request) (s : Session) → IsCalm fs ws s → IsCalm fs ws (query_latest env req s).1
  unfolding query_latest do_request clone_request new_request with_header
  query_latest-IsCalm req s c = ground arith

  modify-IsCalm :
      (f : Addon → Addon) (s : Session)
      → (f s.addon).dump_responses ≡ s.addon.dump_responses
      → IsCalm fs ws s
      → IsCalm fs ws (record s { addon = f s.addon })
  modify-IsCalm f s e c = record {
    no_dump = e ∙ c.no_dump;
    files_kept = c.files_kept;
    writers_kept = c.writers_kept;
    no_faults = c.no_faults;
  }

  IsCalm-IsKept : IsKept env (IsCalm fs ws)
  IsCalm-IsKept = record {
    by_attempt = replay_attempt-IsCalm;
    by_query = query_latest-IsCalm;
    by_agent =
        λ agent s. modify-IsCalm (λ (a : Addon). record a { client_user_agent = agent }) s refl;
    by_signal = λ b s. modify-IsCalm (send_done b) s refl;
    by_lock = λ s. modify-IsCalm (λ (a : Addon). record a { lock = true }) s refl;
  }

  pub handle_buy_request-IsCalm :
      (req : Request) (s : Session) → IsCalm fs ws s → IsCalm fs ws (handle_buy_request env req s)
  handle_buy_request-IsCalm = handle_buy_request-IsKept env (IsCalm fs ws) IsCalm-IsKept
