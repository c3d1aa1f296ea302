-- ===== src/Tests/Flows.antt =====
-- The add-on at concrete flows.
use ipaversion.Base.{List, ◌++◌, ◌+◌, ◌≡◌, ◌≢◌, refl, ap, true, false, some, [], ◌∷◌, length, arith}
use ipaversion.Base.Int.{pos, negsuc}
use ipaversion.Base.Text.{codes, text_eq, contains, has_prefix}
use ipaversion.Outcome.{ok}
use ipaversion.World.{Request}
use ipaversion.App.{AppInfo}
use ipaversion.Http.{gzip_decode_reader}
use ipaversion.Addon.{Addon, index_range, handle_buy_request, user_agent_of, send_done}
use ipaversion.Addon.Bounds.{index_range_lem}
use ipaversion.Addon.Retry.{answer}
use ipaversion.Addon.Buy.{asked, selected, handle_buy_request-served, handle_buy_request_refused}
use ipaversion.Addon.Costs.{Costs, handle_buy_request-Costs}
use ipaversion.Addon.Once.{
  Signals, serve, first_buy, handle_first, handle_buy_request-Signals, serve_lem,
}
use ipaversion.App.Laws.{get_app_info_iff, IsAnswer}
use ipaversion.Tests.Fixtures.{
  store, closed_store, serve_store, unmarshal, notes, buy, other_flow, session, answer_bytes,
  notes-IsAnswer,
}

-- `-start -3 -end 100`, of five versions.
index_range_lem_example : index_range 5 (negsuc 2) (pos 100) ≡ (pos 2, pos 5)
index_range_lem_example = index_range_lem 5 (negsuc 2) (pos 100)

answer-buy : answer store buy 0 ≡ ok notes
unfolding serve_store text_eq gzip_decode_reader
answer-buy = (get_app_info_iff store answer_bytes notes).1 notes-IsAnswer

not_IsAnswer : (app : AppInfo) → IsAnswer closed_store (codes "no") app → ⊥
unfolding unmarshal text_eq
not_IsAnswer app h = ground (arith, h.parsed, h.no_failure)

no_answer : (app : AppInfo) → answer closed_store buy 0 ≢ ok app
unfolding gzip_decode_reader
no_answer app q = not_IsAnswer app ((get_app_info_iff closed_store (codes "no") app).0 q)

handle_buy_request-served_example : (handle_buy_request store buy session).addon.done ≡ true ∷ []
handle_buy_request-served_example =
    ap (λ (a : Addon). a.done) (handle_buy_request-served store buy refl session notes answer-buy).0

handle_buy_request-Costs_example :
    let t = handle_buy_request store buy session in
    (rs : List Request) × (apps : List AppInfo) × Costs store buy 9
      (selected notes session.addon)
      1
      rs
      apps
    × (t.world.sent ≡ ([] ++ (buy ∷ [])) ++ rs)
    × (t.addon.counter ≡ 0 + length rs)
    × (t.addon.history_versions ≡ [] ++ apps)
handle_buy_request-Costs_example = handle_buy_request-Costs store buy refl session notes answer-buy

handle_buy_request_refused_example :
    let a = record session.addon { client_user_agent = user_agent_of [] } in
    handle_buy_request closed_store buy session
    ≡ record (asked buy session) { addon = send_done false a }
handle_buy_request_refused_example =
    handle_buy_request_refused closed_store buy refl session no_answer

handle_buy_request-Signals_example : Signals session (handle_buy_request closed_store buy session)
handle_buy_request-Signals_example = handle_buy_request-Signals closed_store buy session

serve_lem_example :
    serve store (other_flow ∷ (buy ∷ (buy ∷ []))) session
    ≡ handle_first store session (first_buy (other_flow ∷ (buy ∷ (buy ∷ []))))
serve_lem_example = serve_lem store (other_flow ∷ (buy ∷ (buy ∷ []))) session refl

first_buy-flows : first_buy (other_flow ∷ (buy ∷ (buy ∷ []))) ≡ some buy
unfolding first_buy contains has_prefix
first_buy-flows = refl
