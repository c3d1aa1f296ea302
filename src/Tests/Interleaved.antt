-- ===== src/Tests/Interleaved.antt =====
-- Two flows to the buy address whose goroutines interleave, and the add-on's invariant.
use ipaversion.Base.{ℕ, zero, suc, ◌≡◌, ◌⊎◌, refl, [], ◌∷◌, arith}
use ipaversion.Base.Text.{text_eq, contains, has_prefix}
use ipaversion.World.{Request}
use ipaversion.App.{get_app_info, get_download_item_result}
use ipaversion.Http.{clone_request, new_request, with_header, do_request, gzip_decode_reader}
use ipaversion.Addon.{on_request, handle_buy_request, query_latest}
use ipaversion.Addon.Once.{serve, locked}
use ipaversion.Addon.Invariant.{IsConsistent, serve-IsConsistent}
use ipaversion.Addon.Race.{
  arrived, over, on_latest, advance, run, System, stepped, pick, start_of, Reach, start, later,
}
use ipaversion.Addon.Race.Alone.{run_lem}
use ipaversion.Addon.Race.Exclusion.{IsIdle, IsBuy, one_works, race_lem}
use ipaversion.Tests.Fixtures.{store, closed_store, unmarshal, buy, other_flow, session}

session-IsConsistent : IsConsistent store session
session-IsConsistent = record {
  calls_counted = refl;
  attempts_sent = omega arith;
  versions_found = omega arith;
  versions_read = tt;
  silent = λ free. refl;
  one_signal = omega arith;
}

serve-IsConsistent_example :
    IsConsistent store (serve store (other_flow ∷ (buy ∷ (buy ∷ []))) session)
serve-IsConsistent_example =
    serve-IsConsistent store (other_flow ∷ (buy ∷ (buy ∷ []))) session session-IsConsistent

run_lem_example :
    (n : ℕ) × (run store buy n (arrived, session) ≡ (over, on_request store buy session))
run_lem_example = run_lem store buy session

abbrev flows : ℕ → Request
flows i = buy

-- The first flow takes the mutex, and the second finds it held.
abbrev working : System
working = stepped closed_store flows 1 (stepped closed_store flows 0 (start_of session))

abbrev working-Reach : Reach closed_store flows session working
working-Reach = later (later start (pick 0)) (pick 1)

works : ¬ IsIdle (working.stage 0)
unfolding advance contains has_prefix
works = λ h. h

one_works_example : ◌≡◌ {A = ℕ} 0 0
one_works_example = one_works closed_store flows session refl working-Reach 0 0 works works

-- The store refuses, and both goroutines are over.
abbrev ended : System
ended = stepped closed_store flows 0 working

later_flows : (j : ℕ) → ended.stage (suc (suc j)) ≡ arrived
later_flows j = ground arith

ended-IsIdle : (j : ℕ) → IsIdle (ended.stage j)
unfolding advance contains has_prefix on_latest query_latest clone_request new_request with_header
    do_request gzip_decode_reader unmarshal text_eq get_app_info get_download_item_result
ended-IsIdle zero = tt
ended-IsIdle (suc zero) = tt
ended-IsIdle (suc (suc j)) = rw (later_flows j) tt

race_lem_example :
    ((ended.session ≡ session) × ((j : ℕ) → IsBuy (flows j) → ended.stage j ≡ arrived))
    ⊎ ((k : ℕ) × IsBuy (flows k)
        × (ended.session ≡ handle_buy_request closed_store (flows k) (locked session)))
race_lem_example =
    race_lem closed_store flows session refl (later working-Reach (pick 0)) ended-IsIdle
