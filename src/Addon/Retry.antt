-- ===== src/Addon/Retry.antt =====
-- How often a version is queried, and what its query leaves behind.
use ipaversion.Base.{
  ℕ, suc, zero, ◌+◌, ◌≤◌, ◌≡◌, ◌≢◌, refl, ◌∙◌, ◌⊎◌, inl, inr, true, Option, none, some, List, [],
  ◌∷◌, ◌++◌, append-nil, append_assoc, arith,
}
use ipaversion.Base.Text.{Text, Bytes}
use ipaversion.Outcome.{
  Outcome, ok, err, panic, done, ◌>>=◌, Outcome-cases, Result-cases, outcome, nil_dereference,
}
use ipaversion.App.{AppInfo, get_app_info}
use ipaversion.Http.{new_request, do_request, gzip_decode_reader}
use ipaversion.World.{Env, Request, Response, system_call, write_file}
use ipaversion.Addon.State.{Addon, Session}
use ipaversion.Addon.Replay.{
  ReplayRequestInput, decode_failed, parse_failed, replayed_body, maybe_dump, replay_attempt,
  replay_request,
}

-- The request that stands for one version.
abbrev pub version_request : ReplayRequestInput → Request
version_request inp = record {
  method = inp.method;
  url = inp.url;
  header = inp.header;
  body = replayed_body inp;
}

-- What the server's answer to the n-th request is read as.
abbrev pub answer : Env → Request → ℕ → Outcome AppInfo
answer env req n =
    outcome (env.server n req) >>= λ resp. gzip_decode_reader resp.body >>= get_app_info env

-- The first answer that is an app, of those to the requests from the n-th on, with as many
-- retries as are given; and how many requests that takes.
abbrev pub either : Outcome AppInfo → Option AppInfo → Option AppInfo
either (ok a) rest = some a
either (err e) rest = rest
either (panic p) rest = rest

abbrev pub one_more : Outcome AppInfo → ℕ → ℕ
one_more (ok a) rest = 1
one_more (err e) rest = suc rest
one_more (panic p) rest = suc rest

pub either_lost :
    (o : Outcome AppInfo) (rest : Option AppInfo)
    → ((a : AppInfo) → o ≢ ok a)
    → either o rest ≡ rest
either_lost (ok a) rest h = absurd (h a refl)
either_lost (err e) rest h = refl
either_lost (panic p) rest h = refl

pub one_more_lost :
    (o : Outcome AppInfo) (rest : ℕ) → ((a : AppInfo) → o ≢ ok a) → one_more o rest ≡ suc rest
one_more_lost (ok a) rest h = absurd (h a refl)
one_more_lost (err e) rest h = refl
one_more_lost (panic p) rest h = refl

module _ (env : Env) (req : Request) where
  unfoldable pub first_app : ℕ → ℕ → Option AppInfo
  first_app zero n = either (answer env req n) none
  first_app (suc retry) n = let rest = first_app retry (n + 1) in either (answer env req n) rest

  unfoldable pub attempts : ℕ → ℕ → ℕ
  attempts zero n = 1
  attempts (suc retry) n = let rest = attempts retry (n + 1) in one_more (answer env req n) rest

  pub attempts_bounds : (retry n : ℕ) → (1 ≤ attempts retry n) × (attempts retry n ≤ retry + 1)
  unfolding attempts
  attempts_bounds zero n = omega arith
  attempts_bounds (suc retry) n = ground (arith, attempts_bounds retry (n + 1))

abbrev pub found_list : Option AppInfo → List AppInfo
found_list none = []
found_list (some a) = a ∷ []

abbrev pub copies : Request → ℕ → List Request
copies req zero = []
copies req (suc k) = req ∷ copies req k

-- The add-on with `apps` found and `k` attempts counted.
abbrev pub grown : Addon → List AppInfo → ℕ → Addon
grown a apps k = record a { history_versions = a.history_versions ++ apps; counter = a.counter + k }

-- From `s` to `t`, `k` requests have been sent and counted, and `apps` have been found.
pub record Advances (s t : Session) (apps : List AppInfo) (reqs : List Request) (k : ℕ)
    : Type 0 where
  pub addon_kept : t.addon ≡ grown s.addon apps k
  pub calls_made : t.world.calls ≡ s.world.calls + k
  pub requests_sent : t.world.sent ≡ s.world.sent ++ reqs

-- A dump of a response changes files only.
maybe_dump-Keeps :
    (d : Bytes) (s : Session)
    → ((maybe_dump d s).0 ≡ ok tt)
      × ((maybe_dump d s).1.addon ≡ s.addon)
      × ((maybe_dump d s).1.world.calls ≡ s.world.calls)
      × ((maybe_dump d s).1.world.sent ≡ s.world.sent)
unfolding maybe_dump write_file system_call
maybe_dump-Keeps d s = ground arith

module _ (env : Env) (inp : ReplayRequestInput)
    (valid : env.request_is_valid inp.method inp.url ≡ true) where
  attempt_found :
      (s : Session) (resp : Response) (d : Bytes) (a : AppInfo)
      → env.server s.world.calls (version_request inp) ≡ done resp
      → gzip_decode_reader resp.body ≡ ok d
      → get_app_info env d ≡ ok a
      → ((replay_attempt env inp s).0 ≡ ok tt)
        × Advances s (replay_attempt env inp s).1 (a ∷ []) (version_request inp ∷ []) 1
  unfolding replay_attempt new_request do_request
  attempt_found s resp d a h1 h2 h3 =
      let s' : Session = record {
        addon = record s.addon {
          history_versions = s.addon.history_versions ++ (a ∷ []);
          counter = s.addon.counter + 1;
        };
        world = record s.world {
          calls = s.world.calls + 1;
          sent = s.world.sent ++ (version_request inp ∷ []);
        };
      } in
      let kept = maybe_dump-Keeps d s' in
      rw (valid, h1, h2, h3)
        (kept.0, record { addon_kept = kept.1; calls_made = kept.2; requests_sent = kept.3 })

  -- What an attempt that fails leaves: the request is counted and sent.
  abbrev failed_session : Session → Session
  failed_session s = record {
    addon = record s.addon { counter = s.addon.counter + 1 };
    world = record s.world {
      calls = s.world.calls + 1;
      sent = s.world.sent ++ (version_request inp ∷ []);
    };
  }

  attempt_cases :
      (s : Session)
      → ((a : AppInfo) × (answer env (version_request inp) s.world.calls ≡ ok a)
          × ((replay_attempt env inp s).0 ≡ ok tt)
          × Advances s (replay_attempt env inp s).1 (a ∷ []) (version_request inp ∷ []) 1)
        ⊎ ((p : Text) × ((a : AppInfo) → answer env (version_request inp) s.world.calls ≢ ok a)
            × (replay_attempt env inp s ≡ (panic p, failed_session s)))
  unfolding replay_attempt new_request do_request
  attempt_cases s = elim (Result-cases (env.server s.world.calls (version_request inp))) [
    | inr (e, h1) ↦ inr (nil_dereference, (λ a q. cc), rw (valid, h1))
    | inl (resp, h1) ↦ elim (Outcome-cases (gzip_decode_reader resp.body)) [
      | inr (inl (e, h2)) ↦ inr (decode_failed e, rw (h1, h2) (λ a q. cc), rw (valid, h1, h2))
      | inr (inr (p, h2)) ↦ inr (p, rw (h1, h2) (λ a q. cc), rw (valid, h1, h2))
      | inl (d, h2) ↦ elim (Outcome-cases (get_app_info env d)) [
        | inr (inl (e, h3)) ↦
            inr (parse_failed e, rw (h1, h2, h3) (λ a q. cc), rw (valid, h1, h2, h3))
        | inr (inr (p, h3)) ↦ inr (p, rw (h1, h2, h3) (λ a q. cc), rw (valid, h1, h2, h3))
        | inl (a, h3) ↦ inl (
          a,
          rw (h1, h2, h3),
          (attempt_found s resp d a h1 h2 h3).0,
          (attempt_found s resp d a h1 h2 h3).1,
        )
      ]
    ]
  ]

  after_failure :
      {s t : Session} {apps : List AppInfo} {reqs : List Request} {k : ℕ}
      → Advances (failed_session s) t apps reqs k
      → Advances s t apps (version_request inp ∷ reqs) (suc k)
  after_failure {s} {t} {apps} {reqs} {k} a = record {
    addon_kept =
        a.addon_kept ∙ count (s.addon.counter + 1 + k) (s.addon.counter + suc k) (omega arith);
    calls_made = omega (arith, a.calls_made);
    requests_sent = a.requests_sent ∙ append_assoc s.world.sent (version_request inp ∷ []) reqs;
  }
    where
      count :
          (m n : ℕ)
          → m ≡ n
          → ◌≡◌ {A = Addon}
              (record s.addon { history_versions = s.addon.history_versions ++ apps; counter = m })
              (record s.addon { history_versions = s.addon.history_versions ++ apps; counter = n })
      count m n e = rw e

  -- A failed attempt with no retry left.
  at_rest : (s : Session) → Advances s s [] [] 0
  at_rest s = record {
    addon_kept = ground (arith, append-nil s.addon.history_versions);
    calls_made = omega arith;
    requests_sent = rw append-nil;
  }

  -- If `http.NewRequest` takes the method and URL, a version is queried with `retry` retries until
  -- an answer is an app or `retry + 1` requests have been sent: that app is appended if there is
  -- one, each request is counted, and no other field of the add-on changes.
  pub replay_request_lem :
      (retry : ℕ) (s : Session)
      → let n = s.world.calls in
        let req = version_request inp in
        Advances s
          (replay_request env inp retry s)
          (found_list (first_app env req retry n))
          (copies req (attempts env req retry n))
          (attempts env req retry n)
  unfolding replay_request first_app attempts
  replay_request_lem zero s = elim (attempt_cases s) [
    | inl (a, h, done', adv) ↦ rw h (rw done' adv)
    | inr (p, h, lost) ↦
        rw lost (rw (either_lost _ none h) (after_failure (at_rest (failed_session s))))
  ]
  replay_request_lem (suc retry) s = elim (attempt_cases s) [
    | inl (a, h, done', adv) ↦ rw h (rw done' adv)
    | inr (p, h, lost) ↦ rw lost (
        rw
          (
            either_lost _ (first_app env (version_request inp) retry (s.world.calls + 1)) h,
            one_more_lost _ (attempts env (version_request inp) retry (s.world.calls + 1)) h,
          )
          (after_failure (replay_request_lem retry (failed_session s))))
  ]
