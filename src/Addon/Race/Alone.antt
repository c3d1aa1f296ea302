-- ===== src/Addon/Race/Alone.antt =====
-- A goroutine that runs alone does what the handler does.
use ipaversion.Base.{
  ℕ, zero, suc, ◌+◌, ◌≡◌, refl, ap, ◌∙◌, true, Bool-cases, Option, none, some, inl, inr, get_elem?,
  arith,
}
use ipaversion.Base.Text.{contains}
use ipaversion.Outcome.{Outcome, ok, err, panic, or_panic, index_out_of_range}
use ipaversion.App.{AppInfo}
use ipaversion.Http.{new_request, do_request, with_header, clone_request}
use ipaversion.World.{Env, Request, ◌>>◌, after}
use ipaversion.Addon.State.{Addon, Session, modify}
use ipaversion.Addon.Replay.{ReplayRequestInput, replay_attempt, replay_request, maybe_dump}
use ipaversion.Addon.Handle.{
  retries, replay_input, replay_loop, replay_range, send_done, query_latest, handle_body,
  recover_done, handle_buy_request, target_url_substr, on_request,
}
use ipaversion.Addon.Kept.{replay_request_keeps}
use ipaversion.Addon.Race.{
  Stage, arrived, querying, replaying, over, on_latest, on_version, advance, run,
}

module _ (env : Env) (req : Request) where
  -- What the goroutine does from a stage on, if no other one takes a step.
  unfoldable pub finish : Stage → Session → Session
  finish arrived s = on_request env req s
  finish querying s = handle_buy_request env req s
  finish (replaying latest rounds index i) s =
      recover_done ((replay_loop env req latest rounds index i >> modify (send_done true)) s)
  finish over s = s

  abbrev finished : Stage × Session → Session
  finished (st, s) = finish st s

  on_latest-finish :
      (x : Outcome AppInfo × Session)
      → finished (on_latest x)
        ≡ recover_done (after x λ latest. replay_range env req latest >> modify (send_done true))
  unfolding finish on_latest replay_range recover_done
  on_latest-finish (ok app, s) = refl
  on_latest-finish (err e, s) = refl
  on_latest-finish (panic p, s) = refl

  on_version-finish :
      (latest : AppInfo) (rounds index i : ℕ) (o : Option ℕ) (s : Session)
      → finished (on_version env req latest rounds index i o s)
        ≡ recover_done (
            after
              (after
                (or_panic o index_out_of_range, s)
                λ id s'. replay_loop env req latest rounds (index + 1) (i + 1) (
                  replay_request env
                    (replay_input req latest.software_version_external_identifier id index i)
                    retries
                    s'))
              (λ _. modify (send_done true)))
  unfolding finish on_version recover_done
  on_version-finish latest rounds index i none s = refl
  on_version-finish latest rounds index i (some id) s = refl

  -- A step does not change what is reached in the end.
  pub advance-finish : (st : Stage) (s : Session) → finished (advance env req st s) ≡ finish st s
  unfolding finish advance on_request handle_buy_request handle_body replay_loop
  advance-finish arrived s = elim (Bool-cases (contains req.url target_url_substr)) [
    | inr miss ↦ rw miss
    | inl hit ↦ elim (Bool-cases s.addon.lock) [
      | inl held ↦ simp (hit, held) refl
      | inr free ↦ simp (hit, free) refl
    ]
  ]
  advance-finish querying s = on_latest-finish (query_latest env req _)
  advance-finish (replaying latest zero index i) s = refl
  advance-finish (replaying latest (suc rounds) index i) s =
      on_version-finish latest rounds index i
        (get_elem? latest.software_version_external_identifiers index) s
  advance-finish over s = refl

  replay_attempt-lock :
      (inp : ReplayRequestInput) (s : Session)
      → (replay_attempt env inp s).1.addon.lock ≡ s.addon.lock
  unfolding replay_attempt new_request do_request with_header maybe_dump
  replay_attempt-lock inp s = ground arith

  replay_request-lock :
      (inp : ReplayRequestInput) (retry : ℕ) (s : Session)
      → (replay_request env inp retry s).addon.lock ≡ s.addon.lock
  replay_request-lock inp retry s =
      replay_request_keeps env (λ t. t.addon.lock ≡ s.addon.lock)
        (λ inp' t h. replay_attempt-lock inp' t ∙ h) inp retry s refl

  on_version-lock :
      (latest : AppInfo) (rounds index i : ℕ) (o : Option ℕ) (s : Session)
      → s.addon.lock ≡ true
      → (on_version env req latest rounds index i o s).1.addon.lock ≡ true
  unfolding on_version
  on_version-lock latest rounds index i none s h = h
  on_version-lock latest rounds index i (some id) s h = replay_request-lock _ retries s ∙ h

  pub query_latest-addon : (s : Session) → (query_latest env req s).1.addon ≡ s.addon
  unfolding query_latest do_request clone_request new_request with_header
  query_latest-addon s = ground arith

  on_latest-lock :
      (x : Outcome AppInfo × Session) → x.1.addon.lock ≡ true → (on_latest x).1.addon.lock ≡ true
  unfolding on_latest
  on_latest-lock (ok app, s) h = h
  on_latest-lock (err e, s) h = h
  on_latest-lock (panic p, s) h = h

  -- Once the mutex is held, it stays held.
  pub advance-lock :
      (st : Stage) (s : Session) → s.addon.lock ≡ true → (advance env req st s).1.addon.lock ≡ true
  unfolding advance on_version
  advance-lock arrived s h = ground arith
  advance-lock querying s h =
      on_latest-lock (query_latest env req _)
        (ap (λ (a : Addon). a.lock) (query_latest-addon _) ∙ h)
  advance-lock (replaying latest zero index i) s h = h
  advance-lock (replaying latest (suc rounds) index i) s h =
      on_version-lock latest rounds index i
        (get_elem? latest.software_version_external_identifiers index) s h
  advance-lock over s h = h

  finished-run : (n : ℕ) (st : Stage) (s : Session) → finished (run env req n (st, s)) ≡ finish st s
  unfolding run
  finished-run zero st s = refl
  finished-run (suc n) st s =
      let (st', s') = advance env req st s in finished-run n st' s' ∙ advance-finish st s

  -- The goroutine is over after some number of steps.
  abbrev Ends : Stage × Session → Type 0
  Ends x = (n : ℕ) × ((run env req n x).0 ≡ over)

  on_version-Ends :
      (latest : AppInfo) (rounds index i : ℕ) (o : Option ℕ) (s : Session)
      → ((t : Session) → Ends (replaying latest rounds (index + 1) (i + 1), t))
      → Ends (on_version env req latest rounds index i o s)
  unfolding on_version run
  on_version-Ends latest rounds index i none s ih = (0, refl)
  on_version-Ends latest rounds index i (some id) s ih = ih _

  replaying-Ends :
      (latest : AppInfo) (rounds index i : ℕ) (s : Session)
      → Ends (replaying latest rounds index i, s)
  unfolding run advance
  replaying-Ends latest zero index i s = (suc zero, refl)
  replaying-Ends latest (suc rounds) index i s =
      let (n, h) =
        on_version-Ends latest rounds index i
          (get_elem? latest.software_version_external_identifiers index) s
          (replaying-Ends latest rounds (index + 1) (i + 1)) in
      (suc n, h)

  on_latest-Ends : (x : Outcome AppInfo × Session) → Ends (on_latest x)
  unfolding on_latest run
  on_latest-Ends (ok app, s) = replaying-Ends app _ _ 0 s
  on_latest-Ends (err e, s) = (zero, refl)
  on_latest-Ends (panic p, s) = (zero, refl)

  querying-Ends : (s : Session) → Ends (querying, s)
  unfolding run advance
  querying-Ends s = let (n, h) = on_latest-Ends (query_latest env req _) in (suc n, h)

  arrived-Ends : (s : Session) → Ends (arrived, s)
  unfolding run advance
  arrived-Ends s = elim (Bool-cases (contains req.url target_url_substr)) [
    | inr miss ↦ (suc zero, rw miss)
    | inl hit ↦ elim (Bool-cases s.addon.lock) [
      | inl held ↦ (suc zero, simp (hit, held) refl)
      | inr free ↦
          let t : Session = record s { addon = record s.addon { lock = true } } in
          let e : advance env req arrived s ≡ (querying, t) = simp (hit, free) refl in
          let (n, h) = querying-Ends t in
          (suc n, ap (λ (x : Stage × Session). (run env req n x).0) e ∙ h)
    ]
  ]

  over_with : (x : Stage × Session) (t : Session) → x.0 ≡ over → finished x ≡ t → x ≡ (over, t)
  unfolding finish
  over_with (arrived, s) t h e = cc
  over_with (querying, s) t h e = cc
  over_with (replaying latest rounds index i, s) t h e = cc
  over_with (over, s) t h e = rw e

  stage-Ends : (st : Stage) (s : Session) → Ends (st, s)
  unfolding run
  stage-Ends arrived s = arrived-Ends s
  stage-Ends querying s = querying-Ends s
  stage-Ends (replaying latest rounds index i) s = replaying-Ends latest rounds index i s
  stage-Ends over s = (zero, refl)

  -- From any stage, a goroutine that no other one disturbs ends, and has done what is left.
  pub runs_out :
      (st : Stage) (s : Session) → (n : ℕ) × (run env req n (st, s) ≡ (over, finish st s))
  runs_out st s =
      let (n, h) = stage-Ends st s in
      (n, over_with (run env req n (st, s)) (finish st s) h (finished-run n st s))

  -- A goroutine that no other one disturbs ends, and has done what `Addon.Request` does.
  pub run_lem :
      (s : Session) → (n : ℕ) × (run env req n (arrived, s) ≡ (over, on_request env req s))
  unfolding finish
  run_lem s = runs_out arrived s
