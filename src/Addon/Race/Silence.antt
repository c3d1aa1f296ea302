-- ===== src/Addon/Race/Silence.antt =====
-- No value is on the channel while a goroutine works.
use ipaversion.Base.{
  ℕ, zero, suc, ◌≡◌, ◌≢◌, ◌⊎◌, inl, inr, ap, ◌∙◌, false, Option, none, some, [], get_elem?, arith,
}
use ipaversion.Outcome.{Outcome, ok, err, panic}
use ipaversion.App.{AppInfo}
use ipaversion.World.{Env, Request}
use ipaversion.Addon.State.{Addon, Session}
use ipaversion.Addon.Replay.{maybe_dump, ReplayRequestInput, replay_attempt}
use ipaversion.Addon.Handle.{retries, handle_buy_request, query_latest}
use ipaversion.Addon.Kept.{replay_request_keeps}
use ipaversion.Http.{new_request, do_request, with_header}
use ipaversion.Addon.Once.{locked}
use ipaversion.Addon.Race.{
  Stage, arrived, querying, replaying, over, on_latest, on_version, advance, System, set_stage,
  stepped, pick, Reach, start, later,
}
use ipaversion.Addon.Race.Alone.{query_latest-addon}
use ipaversion.Addon.Race.Exclusion.{
  IsIdle, Inv, free, taken, Reach-Inv, idle_step, one_works, race_lem, IsBuy, set_stage_self,
  set_stage_ne, eq_or_ne,
}

-- The goroutine works, or it does not.
IsIdle-cases : (st : Stage) → IsIdle st ⊎ (¬ IsIdle st)
IsIdle-cases arrived = inl tt
IsIdle-cases querying = inr (λ h. h)
IsIdle-cases (replaying app rounds index i) = inr (λ h. h)
IsIdle-cases over = inl tt

module _ (env : Env) (req : Request) where
  replay_attempt-done :
      (inp : ReplayRequestInput) (s : Session)
      → (replay_attempt env inp s).1.addon.done ≡ s.addon.done
  unfolding replay_attempt new_request do_request with_header maybe_dump
  replay_attempt-done inp s = ground arith

  on_latest_silent :
      (x : Outcome AppInfo × Session)
      → x.1.addon.done ≡ []
      → ¬ IsIdle (on_latest x).0
      → (on_latest x).1.addon.done ≡ []
  unfolding on_latest
  on_latest_silent (ok app, s) h works = h
  on_latest_silent (err e, s) h works = absurd (works tt)
  on_latest_silent (panic p, s) h works = absurd (works tt)

  on_version_silent :
      (app : AppInfo) (rounds index i : ℕ) (o : Option ℕ) (s : Session)
      → s.addon.done ≡ []
      → ¬ IsIdle (on_version env req app rounds index i o s).0
      → (on_version env req app rounds index i o s).1.addon.done ≡ []
  unfolding on_version
  on_version_silent app rounds index i none s h works = absurd (works tt)
  on_version_silent app rounds index i (some id) s h works =
      replay_request_keeps env (λ t. t.addon.done ≡ []) (λ inp t e. replay_attempt-done inp t ∙ e) _
        retries s h

  -- A goroutine that works sends nothing by a step after which it still works.
  advance_silent :
      (st : Stage) (s : Session)
      → ¬ IsIdle st
      → s.addon.done ≡ []
      → ¬ IsIdle (advance env req st s).0
      → (advance env req st s).1.addon.done ≡ []
  unfolding advance
  advance_silent arrived s worked h works = absurd (worked tt)
  advance_silent querying s worked h works =
      on_latest_silent (query_latest env req _)
        (ap (λ (a : Addon). a.done) (query_latest-addon env req _) ∙ h) works
  advance_silent (replaying app zero index i) s worked h works = absurd (works tt)
  advance_silent (replaying app (suc rounds) index i) s worked h works =
      on_version_silent app rounds index i
        (get_elem? app.software_version_external_identifiers index) s h works
  advance_silent over s worked h works = absurd (worked tt)

-- Who works after a step is the goroutine that took it, or has worked before.
works_after :
    (f : ℕ → Stage) (i k : ℕ) (st : Stage)
    → ¬ IsIdle (set_stage f i st k)
    → ((i ≡ k) × (¬ IsIdle st)) ⊎ ((i ≢ k) × (¬ IsIdle (f k)))
works_after f i k st works = elim (eq_or_ne i k) [
  | inl same ↦ inl (same, λ h. works (rw (← same) (rw (set_stage_self f i st) h)))
  | inr ne ↦ inr (ne, λ h. works (rw (set_stage_ne f i k st ne) h))
]

module _ (env : Env) (flows : ℕ → Request) (s : Session) (unlocked : s.addon.lock ≡ false)
    (silent : s.addon.done ≡ []) where
  abbrev Working : System → ℕ → Type 0
  Working c k = ¬ IsIdle (c.stage k)

  -- A free mutex is one that no flow has taken.
  untaken :
      (c : System) → Inv env flows s c → c.session.addon.lock ≡ false → c.session.addon.done ≡ []
  untaken c (free kept idle fresh) h = ap (λ (t : Session). t.addon.done) kept ∙ silent
  untaken c (taken k buy held gone idle end') h = cc

  rest_works : (c : System) (i k : ℕ) → ¬ IsIdle (set_stage c.stage i over k) → ¬ IsIdle (c.stage k)
  rest_works c i k works = elim (works_after c.stage i k over works) [
    | inl (same, still) ↦ absurd (still tt)
    | inr (ne, other) ↦ other
  ]

  step_silent :
      (c : System) (i k : ℕ)
      → Reach env flows s c
      → ((j : ℕ) → Working c j → c.session.addon.done ≡ [])
      → Working (stepped env flows i c) k
      → (stepped env flows i c).session.addon.done ≡ []
  step_silent c i k r ih works = elim (IsIdle-cases (c.stage i)) [
    | inl idle ↦ elim (idle_step env (flows i) (c.stage i) c.session idle) [
      | inr (buy, open_lock, e) ↦ rw e (untaken c (Reach-Inv env flows s unlocked r) open_lock)
      | inl (e, busy) ↦ rw e (ih k (rest_works c i k (let w = works in rw e at w)))
    ]
    | inr worked ↦
        elim (works_after c.stage i k (advance env (flows i) (c.stage i) c.session).0 works) [
          | inl (same, still) ↦
              advance_silent env (flows i) (c.stage i) c.session worked (ih i worked) still
          | inr (ne, other) ↦ absurd (ne (one_works env flows s unlocked r i k worked other))
        ]
  ]

  -- No value is on the channel while a goroutine works.
  pub Reach_silent :
      {c : System}
      → Reach env flows s c
      → (k : ℕ) → ¬ IsIdle (c.stage k)
      → c.session.addon.done ≡ []
  Reach_silent start k works = absurd (works tt)
  Reach_silent (later {c} r (pick i)) k works = step_silent c i k r (Reach_silent r) works

  -- Once a value is on the channel, no goroutine works any more, and the add-on is as the handler
  -- leaves it after one buy flow.
  pub Reach_sent :
      {c : System}
      → Reach env flows s c
      → c.session.addon.done ≢ []
      → ((j : ℕ) → IsIdle (c.stage j))
        × ((k : ℕ) × IsBuy (flows k) × (c.session ≡ handle_buy_request env (flows k) (locked s)))
  Reach_sent {c} r sent =
      let idle : (j : ℕ) → IsIdle (c.stage j) = λ j. elim (IsIdle-cases (c.stage j)) [
        | inl h ↦ h
        | inr works ↦ absurd (sent (Reach_silent r j works))
      ] in
      (
        idle,
        elim (race_lem env flows s unlocked r idle) [
          | inl (kept, fresh) ↦ absurd (sent (ap (λ (t : Session). t.addon.done) kept ∙ silent))
          | inr done ↦ done
        ],
      )
