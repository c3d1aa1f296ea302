-- ===== src/Tests/Lifetimes.antt =====
-- A capturing run whose goroutines interleave, from its start to its end.
use ipaversion.Base.{ℕ, ◌≡◌, ◌≢◌, refl, true, false, Option, none, some, List, [], ◌∷◌}
use ipaversion.Base.Text.{
  Text, codes, text_eq, contains, has_prefix, trim_space, is_space, fields, is_digit,
}
use ipaversion.Outcome.{ok, done}
use ipaversion.Addon.Retry.{answer}
use ipaversion.Console.Refusal.{capture_refused}
use ipaversion.Console.Lifetime.Scheduled.{scheduled_lem}
use ipaversion.Console.Lifetime.Onward.{Matches}
use ipaversion.Console.Lifetime.Ended.{Reason, ended_lem}
use ipaversion.Console.Lifetime.Unstuck.{unstuck_lem}
use ipaversion.Console.Lifetime.Finishing.{Finishes}
use ipaversion.Console.Lifetime.{Exit}
use ipaversion.World.{Request}
use ipaversion.App.{AppInfo, get_app_info, get_download_item_result}
use ipaversion.Http.{clone_request, new_request, with_header, do_request, gzip_decode_reader}
use ipaversion.Addon.{user_agent_of, query_latest}
use ipaversion.Addon.Race.{on_latest, advance}
use ipaversion.Addon.Race.Exclusion.{IsBuy}
use ipaversion.Console.{
  turn_on_proxy, turn_off_proxy, Outside, capture, handle_read, on_input, on_command, returned,
}
use ipaversion.Console.Cleanup.{fresh}
use ipaversion.Console.Lifetime.{
  completed, unlocked_twice, asking, exited, Life, create_then, receive_then, after_round,
  unlock_then, proceed, flow_step, main_moves, flow_moves, start_life, Lives, born, moved,
}
use ipaversion.Console.Lifetime.Asked.{not_unlocked_twice}
use ipaversion.Console.Lifetime.Alone.{Setting, alone}
use ipaversion.Console.Lifetime.Sequential.{returns, sequential_lem}
use ipaversion.Tests.Fixtures.{closed_store, unmarshal, buy, empty_world}
use ipaversion.Tests.Whole.{flags}

abbrev pub flows : ℕ → Request
flows i = buy

abbrev reads : List (Option Text)
reads = some (codes "exit\n") ∷ []

abbrev main_step : Life → Life
main_step c = proceed closed_store flags.skip_proxy (done tt) reads c.point c

abbrev flow_at : ℕ → Life → Life
flow_at i c = flow_step closed_store flows i c

abbrev Run : Life → Type 0
Run c = Lives closed_store flags (done tt) reads flows empty_world c

-- The server runs.
abbrev served : Life
served =
    main_step
      (main_step (main_step (start_life closed_store flags (done tt) reads flows empty_world)))

served-Lives : Run served
served-Lives = moved (moved (moved born main_moves) main_moves) main_moves

-- The first flow takes the mutex, and the second finds it held; the store refuses.
abbrev handled : Life
handled = flow_at 0 (flow_at 1 (flow_at 0 served))

handled-Lives : Run handled
unfolding proceed turn_on_proxy create_then flow_step
handled-Lives =
    moved (moved (moved served-Lives (flow_moves 0 tt)) (flow_moves 1 tt)) (flow_moves 0 tt)

abbrev setting : Setting
setting = record {
  env = closed_store;
  f = flags;
  new_proxy = done tt;
  reads = reads;
  flows = flows;
  w = empty_world;
}

-- The second flow holds the mutex, and the first one finds it held.
abbrev contended : Life
contended = flow_at 0 (flow_at 1 served)

contended-Lives : Run contended
unfolding proceed turn_on_proxy create_then flow_step
contended-Lives = moved (moved served-Lives (flow_moves 1 tt)) (flow_moves 0 tt)

still_on : (x : Exit) → contended.point ≢ exited x
unfolding proceed turn_on_proxy create_then flow_step
still_on x h = cc

pub buy-IsBuy : IsBuy buy
unfolding contains has_prefix
buy-IsBuy = refl

exit-trim : trim_space (codes "exit\n") ≡ codes "exit"
unfolding trim_space is_space
exit-trim = refl

unstuck_lem_example : Finishes setting contended
unstuck_lem_example =
    unstuck_lem setting 0 [] [] (codes "exit\n") contended-Lives still_on refl buy-IsBuy refl
      exit-trim

-- The input loop.
abbrev asked : Life
asked = main_step (main_step handled)

asked-Lives : Run asked
asked-Lives = moved (moved handled-Lives main_moves) main_moves

handled_done : handled.addon.done ≡ false ∷ []
unfolding proceed turn_on_proxy create_then flow_step advance contains has_prefix on_latest
    query_latest clone_request new_request with_header do_request gzip_decode_reader unmarshal
    text_eq get_app_info get_download_item_result
handled_done = refl

asked_point : asked.point ≡ asking [] (user_agent_of buy.header) reads
unfolding proceed turn_on_proxy turn_off_proxy create_then receive_then flow_step advance contains
    has_prefix on_latest query_latest clone_request new_request with_header do_request
    gzip_decode_reader unmarshal text_eq get_app_info get_download_item_result
asked_point = refl

-- The user types `exit`.
abbrev ended : Life
ended = main_step (main_step asked)

ended-Lives : Run ended
ended-Lives = moved (moved asked-Lives main_moves) main_moves

ended_point : ended.point ≡ exited completed
unfolding proceed turn_on_proxy turn_off_proxy create_then receive_then flow_step advance contains
    has_prefix on_latest query_latest clone_request new_request with_header do_request
    gzip_decode_reader unmarshal text_eq get_app_info get_download_item_result after_round
    unlock_then handle_read on_input on_command trim_space is_space fields is_digit
ended_point = refl

not_unlocked_twice_example : ended.point ≢ exited unlocked_twice
not_unlocked_twice_example =
    not_unlocked_twice closed_store flags (done tt) reads flows empty_world ended-Lives

sequential_lem_example :
    (k : ℕ) × IsBuy (flows k)
    × (n : ℕ) × (capture closed_store flags
          (alone setting k)
          n
          (start_life closed_store flags (done tt) reads flows empty_world).shell
        ≡ (returned, ended.shell))
sequential_lem_example = sequential_lem setting ended-Lives ended_point returns

ended_lem_example : (k : ℕ) × IsBuy (flows k) × Reason setting k ended.shell.world
ended_lem_example = ended_lem setting ended-Lives ended_point returns

scheduled_lem_example :
    (d : Life) × Run d
    × Matches
        (capture closed_store flags
          (alone setting 1)
          1
          (start_life closed_store flags (done tt) reads flows empty_world).shell)
        d
unfolding contains has_prefix
scheduled_lem_example = scheduled_lem setting 1 1 refl refl

abbrev outside : Outside
outside = record {
  new_proxy = done tt;
  start_error = none;
  flows = buy ∷ (buy ∷ []);
  reads = some (codes "0\n") ∷ reads;
  signalled = true;
}

nothing_sold : (req : Request) (app : AppInfo) → IsBuy req → answer closed_store req 0 ≢ ok app
unfolding gzip_decode_reader unmarshal text_eq get_app_info get_download_item_result
nothing_sold req app sold h = cc

capture_refused_example :
    (capture closed_store flags outside 2 (fresh empty_world)).1.world.files ≡ empty_world.files
capture_refused_example =
    capture_refused closed_store flags outside 2 (fresh empty_world) nothing_sold
