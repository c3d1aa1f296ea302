-- ===== src/Addon/Race/Exclusion.antt =====
-- Flows in any order of their steps: one goroutine at most works, and what the add-on ends with is
-- what the handling of one flow ends with.
use ipaversion.Base.{
  ℕ, zero, suc, Option, none, some, get_elem?, ◌≡◌, ◌≢◌, ◌⊎◌, inl, inr, refl, ap, ◌∙◌, sym, ◌==◌,
  true, false, Bool-cases, arith,
}
use ipaversion.Base.Text.{contains}
use ipaversion.World.{Env, Request}
use ipaversion.Addon.State.{Session}
use ipaversion.Outcome.{Outcome, ok, err, panic}
use ipaversion.App.{AppInfo}
use ipaversion.Addon.Handle.{query_latest, handle_buy_request, target_url_substr}
use ipaversion.Addon.Once.{locked}
use ipaversion.Addon.Race.{
  Stage, arrived, querying, replaying, over, on_latest, on_version, advance, System, set_stage,
  stepped, pick, start_of, Reach, start, later,
}
use ipaversion.Addon.Race.Alone.{finish, advance-finish, advance-lock}

-- The goroutine has not taken the mutex, or has nothing left to do.
abbrev pub IsIdle : Stage → Type 0
IsIdle arrived = Unit
IsIdle querying = ⊥
IsIdle (replaying app rounds index i) = ⊥
IsIdle over = Unit

abbrev IsArrived : Stage → Type 0
IsArrived arrived = Unit
IsArrived querying = ⊥
IsArrived (replaying app rounds index i) = ⊥
IsArrived over = ⊥

abbrev pub IsBuy : Request → Type 0
IsBuy req = contains req.url target_url_substr ≡ true

-- Before a flow has taken the mutex, and after the k-th one has.
pub data Inv (env : Env) (flows : ℕ → Request) (s : Session) (c : System) : Type 0 where
  free :
      c.session ≡ s
      → ((j : ℕ) → IsIdle (c.stage j))
      → ((j : ℕ) → IsBuy (flows j) → c.stage j ≡ arrived)
      → Inv env flows s c
  taken :
      (k : ℕ)
      → IsBuy (flows k)
      → c.session.addon.lock ≡ true
      → c.stage k ≢ arrived
      → ((j : ℕ) → j ≢ k → IsIdle (c.stage j))
      → finish env (flows k) (c.stage k) c.session ≡ handle_buy_request env (flows k) (locked s)
      → Inv env flows s c

pub set_stage_self : (f : ℕ → Stage) (i : ℕ) (st : Stage) → set_stage f i st i ≡ st
set_stage_self f i st = ground arith

pub set_stage_ne : (f : ℕ → Stage) (i j : ℕ) (st : Stage) → i ≢ j → set_stage f i st j ≡ f j
set_stage_ne f i j st h = ground arith

pub eq_or_ne : (i j : ℕ) → (i ≡ j) ⊎ (i ≢ j)
eq_or_ne i j = elim (Bool-cases (i == j)) [
  | inl h ↦ inl (ground (arith, h))
  | inr h ↦ inr (ground (arith, h))
]

pub set_stage-IsIdle :
    (f : ℕ → Stage) (i j : ℕ) (st : Stage) → IsIdle st → IsIdle (f j) → IsIdle (set_stage f i st j)
set_stage-IsIdle f i j st h k = elim (eq_or_ne i j) [
  | inl e ↦ rw⁻¹ e (rw (set_stage_self f i st) h)
  | inr ne ↦ rw (set_stage_ne f i j st ne) k
]

on_latest-ne-arrived : (x : Outcome AppInfo × Session) → (on_latest x).0 ≢ arrived
unfolding on_latest
on_latest-ne-arrived (ok app, s) = λ h. cc
on_latest-ne-arrived (err e, s) = λ h. cc
on_latest-ne-arrived (panic p, s) = λ h. cc

module _ (env : Env) (req : Request) where
  -- A goroutine without the mutex ends, or is a buy flow that takes the free mutex.
  pub idle_step :
      (st : Stage) (t : Session)
      → IsIdle st
      → ((advance env req st t ≡ (over, t)) × (IsBuy req → st ≡ arrived → t.addon.lock ≡ true))
        ⊎ (IsBuy req × (t.addon.lock ≡ false) × (advance env req st t ≡ (querying, locked t)))
  unfolding advance
  idle_step arrived t h = elim (Bool-cases (contains req.url target_url_substr)) [
    | inr miss ↦ inl (rw miss, λ buy e. cc)
    | inl hit ↦ elim (Bool-cases t.addon.lock) [
      | inl held ↦ inl (simp (hit, held) refl, λ buy e. held)
      | inr open_lock ↦ inr (hit, open_lock, simp (hit, open_lock) refl)
    ]
  ]
  idle_step over t h = inl (refl, λ buy e. cc)
  idle_step querying t h = elim h [ ]
  idle_step (replaying app rounds index i) t h = elim h [ ]

  on_version-ne-arrived :
      (app : AppInfo) (rounds index i : ℕ) (o : Option ℕ) (t : Session)
      → (on_version env req app rounds index i o t).0 ≢ arrived
  unfolding on_version
  on_version-ne-arrived app rounds index i none t = λ h. cc
  on_version-ne-arrived app rounds index i (some id) t = λ h. cc

  advance-ne-arrived : (st : Stage) (t : Session) → (advance env req st t).0 ≢ arrived
  unfolding advance on_latest on_version
  advance-ne-arrived arrived t = ground arith
  advance-ne-arrived querying t = on_latest-ne-arrived (query_latest env req _)
  advance-ne-arrived (replaying app zero index i) t = λ h. cc
  advance-ne-arrived (replaying app (suc rounds) index i) t =
      on_version-ne-arrived app rounds index i
        (get_elem? app.software_version_external_identifiers index) t
  advance-ne-arrived over t = λ h. cc

module _ (env : Env) (flows : ℕ → Request) (s : Session) (unlocked : s.addon.lock ≡ false) where
  start-Inv : Inv env flows s (start_of s)
  start-Inv = free refl (λ j. tt) (λ j h. refl)

  free-Inv :
      (c : System) (i : ℕ)
      → c.session ≡ s
      → ((j : ℕ) → IsIdle (c.stage j))
      → ((j : ℕ) → IsBuy (flows j) → c.stage j ≡ arrived)
      → Inv env flows s (stepped env flows i c)
  unfolding finish
  free-Inv c i kept idle fresh =
      let open_lock : c.session.addon.lock ≡ false =
        ap (λ (t : Session). t.addon.lock) kept ∙ unlocked in
      elim (idle_step env (flows i) (c.stage i) c.session (idle i)) [
        | inl (e, busy) ↦ rw e (
            free kept (λ j. set_stage-IsIdle c.stage i j over tt (idle j))
              λ j buy. elim (eq_or_ne i j) [
                | inl same ↦ absurd (let h = busy (rw same buy) (fresh i (rw same buy)) in cc)
                | inr ne ↦ set_stage_ne c.stage i j over ne ∙ fresh j buy
              ])
        | inr (buy, h, e) ↦ rw e (
            taken i buy refl (rw (set_stage_self c.stage i querying) (λ q. cc))
              (λ j ne. rw (set_stage_ne c.stage i j querying (λ q. ne (sym q))) (idle j))
              (rw (set_stage_self c.stage i querying)
                (ap (λ (t : Session). handle_buy_request env (flows i) (locked t)) kept)))
      ]

  winner-Inv :
      (c : System) (k : ℕ)
      → IsBuy (flows k)
      → c.session.addon.lock ≡ true
      → ((j : ℕ) → j ≢ k → IsIdle (c.stage j))
      → finish env (flows k) (c.stage k) c.session ≡ handle_buy_request env (flows k) (locked s)
      → Inv env flows s (stepped env flows k c)
  winner-Inv c k buy held idle end' =
      let x = advance env (flows k) (c.stage k) c.session in
      taken k buy (advance-lock env (flows k) (c.stage k) c.session held)
        (rw (set_stage_self c.stage k x.0) (advance-ne-arrived env (flows k) (c.stage k) c.session))
        (λ j other. rw (set_stage_ne c.stage k j x.0 (λ q. other (sym q))) (idle j other))
        (rw (set_stage_self c.stage k x.0)
          (advance-finish env (flows k) (c.stage k) c.session ∙ end'))

  taken-Inv :
      (c : System) (i k : ℕ)
      → IsBuy (flows k)
      → c.session.addon.lock ≡ true
      → c.stage k ≢ arrived
      → ((j : ℕ) → j ≢ k → IsIdle (c.stage j))
      → finish env (flows k) (c.stage k) c.session ≡ handle_buy_request env (flows k) (locked s)
      → Inv env flows s (stepped env flows i c)
  taken-Inv c i k buy held gone idle end' = elim (eq_or_ne i k) [
    | inr ne ↦ elim (idle_step env (flows i) (c.stage i) c.session (idle i ne)) [
      | inr (b, h, e) ↦ absurd cc
      | inl (e, busy) ↦ rw e (
          taken k buy held (rw (set_stage_ne c.stage i k over ne) gone)
            (λ j other. set_stage-IsIdle c.stage i j over tt (idle j other))
            (rw (set_stage_ne c.stage i k over ne) end'))
    ]
    | inl same ↦ rw same (winner-Inv c k buy held idle end')
  ]

  step-Inv : (c : System) (i : ℕ) → Inv env flows s c → Inv env flows s (stepped env flows i c)
  step-Inv c i (free kept idle fresh) = free-Inv c i kept idle fresh
  step-Inv c i (taken k buy held gone idle end') = taken-Inv c i k buy held gone idle end'

  pub Reach-Inv : {c : System} → Reach env flows s c → Inv env flows s c
  Reach-Inv start = start-Inv
  Reach-Inv (later {c} r (pick i)) = step-Inv c i (Reach-Inv r)

  -- However the steps of the flows interleave, two goroutines never work at once.
  pub one_works :
      {c : System}
      → Reach env flows s c
      → (i j : ℕ) → ¬ IsIdle (c.stage i)
      → ¬ IsIdle (c.stage j)
      → i ≡ j
  one_works {c} r i j wi wj = elim (Reach-Inv r) [
    | free kept idle fresh ↦ absurd (wi (idle i))
    | taken k buy held gone idle end' ↦ elim (eq_or_ne i k) [
      | inr ne ↦ absurd (wi (idle i ne))
      | inl p ↦ elim (eq_or_ne j k) [ inr ne ↦ absurd (wj (idle j ne)) | inl q ↦ p ∙ sym q ]
    ]
  ]

  -- When no goroutine works, nothing has happened, and each buy flow is still to come, or the add-on
  -- is as the handler leaves it after one buy flow, which alone took the mutex.
  pub race_lem :
      {c : System}
      → Reach env flows s c
      → ((j : ℕ) → IsIdle (c.stage j))
      → ((c.session ≡ s) × ((j : ℕ) → IsBuy (flows j) → c.stage j ≡ arrived))
        ⊎ ((k : ℕ) × IsBuy (flows k) × (c.session ≡ handle_buy_request env (flows k) (locked s)))
  unfolding finish
  race_lem {c} r quiet = elim (Reach-Inv r) [
    | free kept idle fresh ↦ inl (kept, fresh)
    | taken k buy held gone idle end' ↦ inr (k, buy, ended k (c.stage k) (quiet k) gone end')
  ]
    where
      ended :
          (k : ℕ) (st : Stage)
          → IsIdle st
          → st ≢ arrived
          → finish env (flows k) st c.session ≡ handle_buy_request env (flows k) (locked s)
          → c.session ≡ handle_buy_request env (flows k) (locked s)
      ended k over h ne e = e
      ended k arrived h ne e = absurd (ne refl)
      ended k querying h ne e = elim h [ ]
      ended k (replaying app rounds index i) h ne e = elim h [ ]
