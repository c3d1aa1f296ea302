-- ===== src/Addon/Invariant.antt =====
-- What holds of the add-on between two flows.
use ipaversion.Base.{
  ℕ, suc, zero, ◌+◌, ◌≤◌, ◌≡◌, inl, inr, refl, ap, ◌∙◌, true, false, Bool-cases, Option, none, some,
  List, [], ◌∷◌, ◌++◌, length, length-append, All, All-append, arith,
}
use ipaversion.Base.Text.{contains}
use ipaversion.Outcome.{Outcome, ok, err, panic, Outcome-cases, >>=-eq-ok, outcome}
use ipaversion.App.{AppInfo}
use ipaversion.App.Laws.{IsRead, get_app_info-IsRead}
use ipaversion.Http.{gzip_decode_reader}
use ipaversion.World.{Env, Request}
use ipaversion.Addon.State.{Addon, Session}
use ipaversion.Addon.Retry.{answer, first_app, attempts_bounds, found_list, copies, either}
use ipaversion.Addon.History.{version, tries, found, requests, total}
use ipaversion.Addon.Handle.{
  retries, handle_buy_request, target_url_substr, on_request, user_agent_of, send_done,
}
use ipaversion.Addon.Buy.{selected, asked, handle_buy_request-served, handle_buy_request_refused}
use ipaversion.Addon.Once.{handle_buy_request_invalid, locked, serve}

answer-IsRead :
    (env : Env) (req : Request) (n : ℕ) (a : AppInfo) → answer env req n ≡ ok a → IsRead env a
answer-IsRead env req n a h =
    let (resp, h1, h2) = >>=-eq-ok (outcome (env.server n req)) _ h in
    let (d, h3, h4) = >>=-eq-ok (gzip_decode_reader resp.body) _ h2 in
    get_app_info-IsRead env d a h4

either-IsRead :
    (env : Env) (o : Outcome AppInfo) (rest : Option AppInfo)
    → ((a : AppInfo) → o ≡ ok a → IsRead env a)
    → All (IsRead env) (found_list rest)
    → All (IsRead env) (found_list (either o rest))
either-IsRead env (ok a) rest h k = (h a refl, tt)
either-IsRead env (err e) rest h k = k
either-IsRead env (panic p) rest h k = k

first_app-IsRead :
    (env : Env) (req : Request) (retry n : ℕ)
    → All (IsRead env) (found_list (first_app env req retry n))
unfolding first_app
first_app-IsRead env req zero n =
    either-IsRead env (answer env req n) none (answer-IsRead env req n) tt
first_app-IsRead env req (suc retry) n =
    either-IsRead env (answer env req n) (first_app env req retry (n + 1)) (answer-IsRead env req n)
      (first_app-IsRead env req retry (n + 1))

length-found_list-le : (o : Option AppInfo) → length (found_list o) ≤ 1
length-found_list-le none = omega arith
length-found_list-le (some a) = omega arith

length-copies : (req : Request) (k : ℕ) → length (copies req k) ≡ k
length-copies req zero = refl
length-copies req (suc k) = ap suc (length-copies req k)

module _ (env : Env) (req : Request) (latest : ℕ) where
  found-IsRead : (ids : List ℕ) (n : ℕ) → All (IsRead env) (found env req latest ids n)
  unfolding found
  found-IsRead [] n = tt
  found-IsRead (id ∷ ids) n =
      All-append (IsRead env) (found_list (first_app env (version env req latest id) retries n)) _
        (first_app-IsRead env (version env req latest id) retries n)
        (found-IsRead ids (n + tries env req latest id n))

  length-found-le :
      (ids : List ℕ) (n : ℕ) → length (found env req latest ids n) ≤ total env req latest ids n
  unfolding found total
  length-found-le [] n = omega arith
  length-found-le (id ∷ ids) n =
      let m = n + tries env req latest id n in
      let o = first_app env (version env req latest id) retries n in
      omega (
        arith,
        length-append (found_list o) (found env req latest ids m),
        length-found_list-le o,
        length-found-le ids m,
        attempts_bounds env (version env req latest id) retries n,
      )

  length-requests :
      (ids : List ℕ) (n : ℕ) → length (requests env req latest ids n) ≡ total env req latest ids n
  unfolding requests total
  length-requests [] n = refl
  length-requests (id ∷ ids) n =
      let k = tries env req latest id n in
      let v = version env req latest id in
      omega (
        arith,
        length-append (copies v k) (requests env req latest ids (n + k)),
        length-copies v k,
        length-requests ids (n + k),
      )

-- Requests are counted as they are sent, versions are found by requests only and are what their
-- data is read as, and one value at most is on the channel, none while the mutex is free.
pub record IsConsistent (env : Env) (s : Session) : Type 0 where
  pub calls_counted : length s.world.sent ≡ s.world.calls
  pub attempts_sent : s.addon.counter ≤ s.world.calls
  pub versions_found : length s.addon.history_versions ≤ s.addon.counter
  pub versions_read : All (IsRead env) s.addon.history_versions
  pub silent : s.addon.lock ≡ false → s.addon.done ≡ []
  pub one_signal : length s.addon.done ≤ 1

served-IsConsistent :
    (env : Env) (req : Request) (valid : env.request_is_valid req.method req.url ≡ true)
    (s : Session) (app : AppInfo)
    → s.addon.lock ≡ true
    → s.addon.done ≡ []
    → answer env req s.world.calls ≡ ok app
    → IsConsistent env s
    → IsConsistent env (handle_buy_request env req s)
served-IsConsistent env req valid s app held silent h v =
    let t = handle_buy_request env req s in
    let latest = app.software_version_external_identifier in
    let ids = selected app s.addon in
    let m = s.world.calls + 1 in
    let (kept, calls, sent) = handle_buy_request-served env req valid s app h in
    let xs = found env req latest ids m in
    let counter = ap (λ (a : Addon). a.counter) kept in
    let history = ap (λ (a : Addon). a.history_versions) kept in
    let values = ap (λ (a : Addon). a.done) kept ∙ ap (λ d. d ++ (true ∷ [])) silent in
    let lock = ap (λ (a : Addon). a.lock) kept ∙ held in
    record {
      calls_counted = omega (
        arith,
        v.calls_counted,
        calls,
        ap length sent,
        length-append (s.world.sent ++ (req ∷ [])) (requests env req latest ids m),
        length-append s.world.sent (req ∷ []),
        length-requests env req latest ids m,
      );
      attempts_sent = omega (arith, v.attempts_sent, counter, calls);
      versions_found = omega (
        arith,
        v.versions_found,
        counter,
        ap length history,
        length-append s.addon.history_versions xs,
        length-found-le env req latest ids m,
      );
      versions_read = rw history (
          All-append (IsRead env) s.addon.history_versions xs v.versions_read
            (found-IsRead env req latest ids m));
      silent = λ free. cc;
      one_signal = omega (arith, ap length values);
    }

refused-IsConsistent :
    (env : Env) (req : Request) (s : Session)
    → s.addon.lock ≡ true
    → s.addon.done ≡ []
    → IsConsistent env s
    → let a = record s.addon { client_user_agent = user_agent_of req.header } in
      IsConsistent env (record (asked req s) { addon = send_done false a })
      × IsConsistent env (record s { addon = send_done false a })
refused-IsConsistent env req s held silent v = (
  record {
    calls_counted = omega (arith, v.calls_counted, length-append s.world.sent (req ∷ []));
    attempts_sent = omega (arith, v.attempts_sent);
    versions_found = v.versions_found;
    versions_read = v.versions_read;
    silent = λ free. cc;
    one_signal = rw silent (omega arith);
  },
  record {
    calls_counted = v.calls_counted;
    attempts_sent = v.attempts_sent;
    versions_found = v.versions_found;
    versions_read = v.versions_read;
    silent = λ free. cc;
    one_signal = rw silent (omega arith);
  },
)

handle_buy_request-IsConsistent :
    (env : Env) (req : Request) (s : Session)
    → s.addon.lock ≡ true
    → s.addon.done ≡ []
    → IsConsistent env s
    → IsConsistent env (handle_buy_request env req s)
handle_buy_request-IsConsistent env req s held silent v =
    let (refused, invalid) = refused-IsConsistent env req s held silent v in
    elim (Bool-cases (env.request_is_valid req.method req.url)) [
      | inr h ↦ rw (handle_buy_request_invalid env req s h) invalid
      | inl h ↦ elim (Outcome-cases (answer env req s.world.calls)) [
        | inl (app, q) ↦ served-IsConsistent env req h s app held silent q v
        | inr (inl (e, q)) ↦ rw (handle_buy_request_refused env req h s (λ a q'. cc)) refused
        | inr (inr (p, q)) ↦ rw (handle_buy_request_refused env req h s (λ a q'. cc)) refused
      ]
    ]

locked-IsConsistent : (env : Env) (s : Session) → IsConsistent env s → IsConsistent env (locked s)
locked-IsConsistent env s v = record {
  calls_counted = v.calls_counted;
  attempts_sent = v.attempts_sent;
  versions_found = v.versions_found;
  versions_read = v.versions_read;
  silent = λ free. cc;
  one_signal = v.one_signal;
}

-- Every flow keeps the add-on consistent, whether it is taken or not and whatever the server answers.
pub on_request-IsConsistent :
    (env : Env) (req : Request) (s : Session)
    → IsConsistent env s
    → IsConsistent env (on_request env req s)
unfolding on_request
on_request-IsConsistent env req s v = elim (Bool-cases (contains req.url target_url_substr)) [
  | inr miss ↦ rw miss v
  | inl hit ↦ elim (Bool-cases s.addon.lock) [
    | inl held ↦ simp (hit, held) v
    | inr free ↦
        simp (hit, free)
          (handle_buy_request-IsConsistent env req (locked s) refl (v.silent free)
            (locked-IsConsistent env s v))
  ]
]

-- Any run of flows keeps the add-on consistent: the calls are the requests sent, the attempts are at
-- most the calls and the versions found at most the attempts, each version is what its data is read
-- as, and the channel has one value at most, and none while the mutex is free.
pub serve-IsConsistent :
    (env : Env) (reqs : List Request) (s : Session)
    → IsConsistent env s
    → IsConsistent env (serve env reqs s)
unfolding serve
serve-IsConsistent env [] s v = v
serve-IsConsistent env (req ∷ reqs) s v =
    serve-IsConsistent env reqs (on_request env req s) (on_request-IsConsistent env req s v)
