-- ===== src/Addon/Kept.antt =====
-- What the steps of the add-on keep, the handling of a flow keeps.
use ipaversion.Base.{
  ℕ, zero, suc, ◌+◌, Bool, true, false, Bool-cases, inl, inr, [], List, ◌∷◌, get_elem?,
}
use ipaversion.Base.Text.{Text, contains}
use ipaversion.Outcome.{Outcome, ok, err, panic, or_panic, index_out_of_range}
use ipaversion.App.{AppInfo}
use ipaversion.World.{Env, Request, ◌>>◌, after}
use ipaversion.Addon.State.{Session, modify}
use ipaversion.Addon.Replay.{ReplayRequestInput, replay_attempt, recovered, replay_request}
use ipaversion.Addon.Handle.{
  retries, replay_loop, replay_range, query_latest, user_agent_of, send_done, handle_body,
  recover_done, handle_buy_request, target_url_substr, on_request,
}
use ipaversion.Addon.Once.{locked, serve}

-- Every step of the add-on keeps `P`.
pub record IsKept (env : Env) (P : Session → Type 0) : Type 0 where
  pub by_attempt : (inp : ReplayRequestInput) (s : Session) → P s → P (replay_attempt env inp s).1
  pub by_query : (req : Request) (s : Session) → P s → P (query_latest env req s).1
  pub by_agent :
      (agent : Text) (s : Session)
      → P s
      → P (record s { addon = record s.addon { client_user_agent = agent } })
  pub by_signal : (b : Bool) (s : Session) → P s → P (record s { addon = send_done b s.addon })
  pub by_lock : (s : Session) → P s → P (locked s)

module _ (env : Env) (P : Session → Type 0)
    (by_attempt : (inp : ReplayRequestInput) (s : Session)
      → P s
      → P (replay_attempt env inp s).1) where
  recovered_keeps :
      (x : Outcome (Unit {0}) × Session) (again : Session → Session)
      → ((t : Session) → P t → P (again t))
      → P x.1
      → P (recovered again x.0 x.1)
  unfolding recovered
  recovered_keeps (ok u, s) again h c = c
  recovered_keeps (err e, s) again h c = c
  recovered_keeps (panic p, s) again h c = h s c

  -- What an attempt keeps, the attempts for one version keep.
  pub replay_request_keeps :
      (inp : ReplayRequestInput) (retry : ℕ) (s : Session)
      → P s
      → P (replay_request env inp retry s)
  unfolding replay_request
  replay_request_keeps inp zero s c =
      recovered_keeps (replay_attempt env inp s) (λ t. t) (λ t h. h) (by_attempt inp s c)
  replay_request_keeps inp (suc retry) s c =
      recovered_keeps (replay_attempt env inp s) (replay_request env inp retry)
        (replay_request_keeps inp retry) (by_attempt inp s c)

module _ (env : Env) (P : Session → Type 0) (k : IsKept env P) where
  after-IsKept :
      {A B : Type 0} (x : Outcome A × Session) (f : A → Session → Outcome B × Session)
      → P x.1
      → ((a : A) (t : Session) → P t → P (f a t).1)
      → P (after x f).1
  after-IsKept (ok a, s) f c h = h a s c
  after-IsKept (err e, s) f c h = c
  after-IsKept (panic p, s) f c h = c

  replay_loop-IsKept :
      (req : Request) (latest : AppInfo) (rounds index i : ℕ) (s : Session)
      → P s
      → P (replay_loop env req latest rounds index i s).1
  unfolding replay_loop
  replay_loop-IsKept req latest zero index i s c = c
  replay_loop-IsKept req latest (suc rounds) index i s c =
      after-IsKept
        (
          or_panic (get_elem? latest.software_version_external_identifiers index)
              index_out_of_range,
          s,
        )
        _ c
        λ id t h.
          replay_loop-IsKept req latest rounds (index + 1) (i + 1) _
            (replay_request_keeps env P k.by_attempt _ retries t h)

  recover_done-IsKept : (x : Outcome (Unit {0}) × Session) → P x.1 → P (recover_done x)
  unfolding recover_done
  recover_done-IsKept (ok u, s) c = c
  recover_done-IsKept (err e, s) c = c
  recover_done-IsKept (panic p, s) c = k.by_signal false s c

  pub handle_buy_request-IsKept :
      (req : Request) (s : Session) → P s → P (handle_buy_request env req s)
  unfolding handle_buy_request handle_body replay_range
  handle_buy_request-IsKept req s c =
      let s' : Session = record s {
        addon = record s.addon { client_user_agent = user_agent_of req.header };
      } in
      recover_done-IsKept (handle_body env req s) (
        after-IsKept (query_latest env req s')
          (λ latest. replay_range env req latest >> modify (send_done true))
          (k.by_query req s' (k.by_agent (user_agent_of req.header) s c))
          λ latest t h.
            after-IsKept (replay_range env req latest t) (λ u. modify (send_done true))
              (replay_loop-IsKept req latest _ _ 0 t h) λ u v g. k.by_signal true v g)

  on_request-IsKept : (req : Request) (s : Session) → P s → P (on_request env req s)
  unfolding on_request
  on_request-IsKept req s c = elim (Bool-cases (contains req.url target_url_substr)) [
    | inr miss ↦ rw miss c
    | inl hit ↦ elim (Bool-cases s.addon.lock) [
      | inl held ↦ simp (hit, held) c
      | inr free ↦ simp (hit, free) (handle_buy_request-IsKept req (locked s) (k.by_lock s c))
    ]
  ]

  pub serve-IsKept : (reqs : List Request) (s : Session) → P s → P (serve env reqs s)
  unfolding serve
  serve-IsKept [] s c = c
  serve-IsKept (req ∷ reqs) s c =
      serve-IsKept reqs (on_request env req s) (on_request-IsKept req s c)
