-- ===== src/Addon/Costs.antt =====
-- What the replay of each version costs: the requests that it sends, one by one.
use ipaversion.Base.{
  ℕ, zero, suc, ◌+◌, ◌<◌, ◌≡◌, ◌≢◌, ◌⊎◌, inl, inr, refl, ap, ◌∙◌, true, none, some, List, [], ◌∷◌,
  ◌++◌, length, length-append, arith,
}
use ipaversion.Outcome.{Outcome-cases, ok}
use ipaversion.App.{AppInfo}
use ipaversion.World.{Env, Request}
use ipaversion.Addon.State.{Addon, Session}
use ipaversion.Addon.Handle.{retries, handle_buy_request}
use ipaversion.Addon.Retry.{
  answer, either_lost, one_more_lost, first_app, attempts, found_list, copies,
}
use ipaversion.Addon.History.{version, tries, found, requests, total}
use ipaversion.Addon.Buy.{selected, handle_buy_request-served}

module _ (env : Env) where
  -- No answer to the requests from the n-th to the one before the (n + k)-th is an app.
  abbrev pub Unanswered : Request → ℕ → ℕ → Type 0
  Unanswered req n k = (j : ℕ) → j < k → (app : AppInfo) → answer env req (n + j) ≢ ok app

  module _ (req : Request) (latest : ℕ) where
    -- The requests for the versions `ids`, from the n-th request on, and the apps that they find. A
    -- version costs one to four requests, of which only the last is answered with an app, or else
    -- four of which none is.
    pub data Costs : List ℕ → ℕ → List Request → List AppInfo → Type 0 where
      all_asked : {n : ℕ} → Costs [] n [] []
      answered_after :
          {id n : ℕ} {ids : List ℕ} {rs : List Request} {apps : List AppInfo} (k : ℕ)
          (app : AppInfo)
          → k < 4
          → Unanswered (version env req latest id) n k
          → answer env (version env req latest id) (n + k) ≡ ok app
          → Costs ids (n + (k + 1)) rs apps
          → Costs (id ∷ ids) n (copies (version env req latest id) (k + 1) ++ rs) (app ∷ apps)
      given_up :
          {id n : ℕ} {ids : List ℕ} {rs : List Request} {apps : List AppInfo}
          → Unanswered (version env req latest id) n 4
          → Costs ids (n + 4) rs apps
          → Costs (id ∷ ids) n (copies (version env req latest id) 4 ++ rs) apps

  module _ (req : Request) where
    abbrev NoApp : ℕ → Type 0
    NoApp n = (app : AppInfo) → answer env req n ≢ ok app

    none_yet : (n : ℕ) → Unanswered req n 0
    none_yet n j less app e = omega (arith, less)

    one_later : (n k : ℕ) → NoApp n → Unanswered req (n + 1) k → Unanswered req n (suc k)
    one_later n k lost rest zero less app e =
        let here : n + 0 ≡ n = omega arith in lost app (rw here at e)
    one_later n k lost rest (suc j) less app e =
        let there : n + suc j ≡ n + 1 + j = omega arith in
        rest j (omega (arith, less)) app (rw there at e)

    -- What one version's requests find, and how many there are.
    abbrev Tried : ℕ → ℕ → Type 0
    Tried retry n =
        ((k : ℕ) × (app : AppInfo) × (k < suc retry)
          × Unanswered req n k
          × (answer env req (n + k) ≡ ok app)
          × (first_app env req retry n ≡ some app)
          × (attempts env req retry n ≡ k + 1))
        ⊎ (Unanswered req n (suc retry)
            × (first_app env req retry n ≡ none)
            × (attempts env req retry n ≡ suc retry))

    answer-cases : (n : ℕ) → ((app : AppInfo) × (answer env req n ≡ ok app)) ⊎ NoApp n
    answer-cases n = elim (Outcome-cases (answer env req n)) [
      | inl (app, h) ↦ inl (app, h)
      | inr (inl (e, h)) ↦ inr (λ a q. cc)
      | inr (inr (p, h)) ↦ inr (λ a q. cc)
    ]

    at_once : (retry n : ℕ) (app : AppInfo) → answer env req n ≡ ok app → Tried retry n
    unfolding first_app attempts
    at_once zero n app h =
        let here : n + 0 ≡ n = omega arith in
        inl (0, app, omega arith, none_yet n, rw here h, rw h, omega arith)
    at_once (suc retry) n app h =
        let here : n + 0 ≡ n = omega arith in
        inl (0, app, omega arith, none_yet n, rw here h, rw h, rw h (omega arith))

    tried_lem : (retry n : ℕ) → Tried retry n
    unfolding first_app attempts
    tried_lem zero n = elim (answer-cases n) [
      | inl (app, h) ↦ at_once zero n app h
      | inr lost ↦ inr (one_later n 0 lost (none_yet (n + 1)), either_lost _ none lost, omega arith)
    ]
    tried_lem (suc retry) n = elim (answer-cases n) [
      | inl (app, h) ↦ at_once (suc retry) n app h
      | inr lost ↦ elim (tried_lem retry (n + 1)) [
        | inl (k, app, less, before, h, first, count) ↦
            let there : n + suc k ≡ n + 1 + k = omega arith in
            inl (
              suc k,
              app,
              omega (arith, less),
              one_later n k lost before,
              rw there h,
              either_lost _ _ lost ∙ first,
              one_more_lost _ _ lost ∙ omega (arith, count),
            )
        | inr (before, first, count) ↦ inr (
          one_later n (suc retry) lost before,
          either_lost _ _ lost ∙ first,
          one_more_lost _ _ lost ∙ omega (arith, count),
        )
      ]
    ]

  module _ (req : Request) (latest : ℕ) where
    one_version :
        (id n : ℕ) (ids : List ℕ) (rs : List Request) (apps : List AppInfo)
        → Costs req latest ids (n + tries env req latest id n) rs apps
        → Costs req latest
            (id ∷ ids)
            n
            (copies (version env req latest id) (tries env req latest id n) ++ rs)
            (found_list (first_app env (version env req latest id) retries n) ++ apps)
    one_version id n ids rs apps rest = elim (tried_lem (version env req latest id) retries n) [
      | inl (k, app, less, before, h, first, count) ↦
          rw (first, count)
            (answered_after k app less before h (let more = rest in rw count at more))
      | inr (before, first, count) ↦
          rw (first, count) (given_up before (let more = rest in rw count at more))
    ]

    requests-Costs :
        (ids : List ℕ) (n : ℕ)
        → Costs req latest ids n (requests env req latest ids n) (found env req latest ids n)
    unfolding requests found
    requests-Costs [] n = all_asked
    requests-Costs (id ∷ ids) n =
        one_version id n ids _ _ (requests-Costs ids (n + tries env req latest id n))

    length-copies : (r : Request) (k : ℕ) → length (copies r k) ≡ k
    length-copies r zero = refl
    length-copies r (suc k) = ap suc (length-copies r k)

    length-requests :
        (ids : List ℕ) (n : ℕ) → length (requests env req latest ids n) ≡ total env req latest ids n
    unfolding requests total
    length-requests [] n = refl
    length-requests (id ∷ ids) n =
        let m = tries env req latest id n in
        length-append (copies (version env req latest id) m) (requests env req latest ids (n + m))
        ∙ omega (arith, length-copies (version env req latest id) m, length-requests ids (n + m))

  -- If `http.NewRequest` takes the request's method and URL and the answer to it is an app, each
  -- selected version costs, in its turn, from one to four requests, of which the last and no other is
  -- answered with an app, or else four of which none is; the requests sent are these alone, each is
  -- counted, and the apps that they find are appended to the history.
  pub handle_buy_request-Costs :
      (req : Request)
      → env.request_is_valid req.method req.url ≡ true
      → (s : Session) (app : AppInfo) → answer env req s.world.calls ≡ ok app
      → let t = handle_buy_request env req s in
        (rs : List Request) × (apps : List AppInfo) × Costs req
          app.software_version_external_identifier
          (selected app s.addon)
          (s.world.calls + 1)
          rs
          apps
        × (t.world.sent ≡ (s.world.sent ++ (req ∷ [])) ++ rs)
        × (t.addon.counter ≡ s.addon.counter + length rs)
        × (t.addon.history_versions ≡ s.addon.history_versions ++ apps)
  handle_buy_request-Costs req valid s app h =
      let latest = app.software_version_external_identifier in
      let ids = selected app s.addon in
      let n = s.world.calls + 1 in
      let (kept, calls, sent) = handle_buy_request-served env req valid s app h in
      let counted = ap (λ (a : Addon). a.counter) kept in
      (
        requests env req latest ids n,
        found env req latest ids n,
        requests-Costs req latest ids n,
        sent,
        omega (arith, counted, length-requests req latest ids n),
        ap (λ (a : Addon). a.history_versions) kept,
      )
