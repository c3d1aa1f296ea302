-- ===== src/Addon/Buy.antt =====
-- What `handleBuyRequest` does for one intercepted request, and what it reports on the channel.
use ipaversion.Base.{
  ℕ, ◌+◌, ◌-◌, ◌≡◌, ◌≢◌, ◌⊎◌, inl, inr, ap, ◌∙◌, true, false, List, [], ◌∷◌, ◌++◌, length, take,
  drop, arith,
}
use ipaversion.Base.Int.{pos_part}
use ipaversion.Base.Text.{Text}
use ipaversion.Outcome.{ok, panic, Result-cases, Outcome-cases}
use ipaversion.App.{AppInfo, get_app_info}
use ipaversion.Http.{clone_request, clone_request_lem, do_request, gzip_decode_reader}
use ipaversion.World.{Env, Request}
use ipaversion.Addon.Range.{index_range}
use ipaversion.Addon.State.{Addon, Session}
use ipaversion.Addon.Retry.{answer, grown}
use ipaversion.Addon.History.{found, requests, total, Replays, replay_loop-Replays}
use ipaversion.Addon.Bounds.{index_range_bounds}
use ipaversion.Addon.Handle.{
  replay_range, user_agent_of, send_done, query_failed, body_failed, latest_failed, query_latest,
  handle_body, handle_buy_request,
}

-- The versions that the flags select.
abbrev pub selected : AppInfo → Addon → List ℕ
selected app a =
    let ids = app.software_version_external_identifiers in
    let (start, end') = index_range (length ids) a.start a.end in
    take (pos_part end' - pos_part start) (drop (pos_part start) ids)

-- One request more has been sent.
abbrev pub asked : Request → Session → Session
asked req s = record s {
  world = record s.world { calls = s.world.calls + 1; sent = s.world.sent ++ (req ∷ []) };
}

module _ (env : Env) (req : Request) (valid : env.request_is_valid req.method req.url ≡ true) where
  cloned : clone_request env req ≡ ok req
  cloned = rw (clone_request_lem env req, valid)

  replay_range-Replays :
      (app : AppInfo) (s : Session)
      → Replays env req app valid (selected app s.addon) s (replay_range env req app s)
  unfolding replay_range
  replay_range-Replays app s =
      let ids = app.software_version_external_identifiers in
      let (start, end') = index_range (length ids) s.addon.start s.addon.end in
      let b = index_range_bounds (length ids) s.addon.start s.addon.end in
      replay_loop-Replays env req app valid (pos_part end' - pos_part start) (pos_part start) 0 s
        (omega (arith, b.1, b.2))

  query_cases :
      (s : Session)
      → ((app : AppInfo) × (answer env req s.world.calls ≡ ok app)
          × (query_latest env req s ≡ (ok app, asked req s)))
        ⊎ ((p : Text) × ((app : AppInfo) → answer env req s.world.calls ≢ ok app)
            × (query_latest env req s ≡ (panic p, asked req s)))
  unfolding query_latest do_request
  query_cases s = elim (Result-cases (env.server s.world.calls req)) [
    | inr (e, h1) ↦ inr (query_failed e, rw h1 (λ a q. cc), rw (cloned, h1))
    | inl (resp, h1) ↦ elim (Outcome-cases (gzip_decode_reader resp.body)) [
      | inr (inl (e, h2)) ↦ inr (body_failed e, rw (h1, h2) (λ a q. cc), rw (cloned, h1, h2))
      | inr (inr (p, h2)) ↦ inr (p, rw (h1, h2) (λ a q. cc), rw (cloned, h1, h2))
      | inl (d, h2) ↦ elim (Outcome-cases (get_app_info env d)) [
        | inr (inl (e, h3)) ↦
            inr (latest_failed e, rw (h1, h2, h3) (λ a q. cc), rw (cloned, h1, h2, h3))
        | inr (inr (p, h3)) ↦ inr (p, rw (h1, h2, h3) (λ a q. cc), rw (cloned, h1, h2, h3))
        | inl (app, h3) ↦ inl (app, rw (h1, h2, h3), rw (cloned, h1, h2, h3))
      ]
    ]
  ]

  query_found :
      (s : Session) (app : AppInfo)
      → answer env req s.world.calls ≡ ok app
      → query_latest env req s ≡ (ok app, asked req s)
  query_found s app h = elim (query_cases s) [
    | inl (other, h', q) ↦ q ∙ (let e : other ≡ app = cc in rw e)
    | inr (p, h', q) ↦ absurd (h' app h)
  ]

  query_lost :
      (s : Session)
      → ((app : AppInfo) → answer env req s.world.calls ≢ ok app)
      → (p : Text) × (query_latest env req s ≡ (panic p, asked req s))
  query_lost s h = elim (query_cases s) [
    | inl (other, h', q) ↦ absurd (h other h')
    | inr (p, h', q) ↦ (p, q)
  ]

  -- The add-on after a flow whose latest version is `app`.
  abbrev pub served : AppInfo → Addon → ℕ → Addon
  served app a m =
      let latest = app.software_version_external_identifier in
      let ids = selected app a in
      send_done true (
        grown (record a { client_user_agent = user_agent_of req.header })
          (found env req latest ids m) (total env req latest ids m))

  -- If `http.NewRequest` takes the request's method and URL and the server's answer to it is an
  -- app, the selected versions of that app are queried in their order, with their retries, the
  -- apps found are appended and the requests counted, `true` is sent on the channel, and no other
  -- field of the add-on but the User-Agent changes.
  pub handle_buy_request-served :
      (s : Session) (app : AppInfo)
      → answer env req s.world.calls ≡ ok app
      → let t = handle_buy_request env req s in
        let latest = app.software_version_external_identifier in
        let ids = selected app s.addon in
        let m = s.world.calls + 1 in
        (t.addon ≡ served app s.addon m)
        × (t.world.calls ≡ m + total env req latest ids m)
        × (t.world.sent ≡ (s.world.sent ++ (req ∷ [])) ++ requests env req latest ids m)
  unfolding handle_buy_request handle_body
  handle_buy_request-served s app h =
      let s0 = record s {
        addon = record s.addon { client_user_agent = user_agent_of req.header };
      } in
      let s1 = asked req s0 in
      let t = (replay_range env req app s1).1 in
      let (fine, queries) = replay_range-Replays app s1 in
      let went : replay_range env req app s1 ≡ (ok tt, t) = λ i. (fine i, t) in
      rw (query_found s0 app h) (
        rw went (ap (send_done true) queries.addon_kept, queries.calls_made, queries.requests_sent))

  -- If `http.NewRequest` takes the request's method and URL and the answer to it is no app, one
  -- request is sent, nothing is replayed, `false` is sent on the channel, and no other field of
  -- the add-on but the User-Agent changes.
  pub handle_buy_request_refused :
      (s : Session)
      → ((app : AppInfo) → answer env req s.world.calls ≢ ok app)
      → let a = record s.addon { client_user_agent = user_agent_of req.header } in
        handle_buy_request env req s ≡ record (asked req s) { addon = send_done false a }
  unfolding handle_buy_request handle_body
  handle_buy_request_refused s h =
      let s0 = record s {
        addon = record s.addon { client_user_agent = user_agent_of req.header };
      } in
      rw (query_lost s0 h).1
