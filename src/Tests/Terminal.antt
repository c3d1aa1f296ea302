-- ===== src/Tests/Terminal.antt =====
-- Runs of `main` and `handleInput`.
use ipaversion.Base.{◌≡◌, refl, true, false, some, none, [], ◌∷◌, arith}
use ipaversion.Base.Int.{pos}
use ipaversion.Base.Text.{decimal, Text, codes, trim_space, is_space, contains, has_prefix}
use ipaversion.Outcome.{done}
use ipaversion.Addon.Once.{first_buy}
use ipaversion.Console.{Flags, Outside, handle_input, capture, main, waiting}
use ipaversion.Console.Rounds.{handle_input_stable}
use ipaversion.Console.Waits.{capture_waits_iff}
use ipaversion.Console.Cleanup.{fresh, is_on, left_on, capture_lem, main_silent}
use ipaversion.Tests.Fixtures.{store, notes, empty_world, other_flow}

abbrev exit_line : Text
exit_line = codes " exit\r\n"

exit_line-trim : trim_space exit_line ≡ codes "exit"
unfolding trim_space is_space
exit_line-trim = refl

-- The end of the file at the first read.
handle_input_stable_example :
    handle_input store (notes ∷ []) [] 1000 (some (codes "?") ∷ []) empty_world
    ≡ handle_input store (notes ∷ []) [] 1 (some (codes "?") ∷ []) empty_world
handle_input_stable_example =
    handle_input_stable store (notes ∷ []) [] 1000 (some (codes "?") ∷ []) empty_world (omega arith)

abbrev index_line : Text
index_line = codes "0\n"

index_line-trim : trim_space index_line ≡ decimal 0
unfolding trim_space is_space decimal
index_line-trim = refl

abbrev flags : Flags
flags = record {
  show_version = false;
  show_help = false;
  input = [];
  proxy_status = false;
  cleanup = false;
  skip_proxy = false;
  dump = false;
  start = pos 0;
  end = pos 9223372036854775807;
}

-- The port is taken.
abbrev port_taken : Outside
port_taken = record {
  new_proxy = done tt;
  start_error = some (codes "address already in use");
  flows = [];
  reads = [];
  signalled = false;
}

capture_lem_example :
    let (e, t) = capture store flags port_taken 0 (fresh empty_world) in
    is_on false t.proxy_calls ≡ left_on e
capture_lem_example = capture_lem store flags port_taken 0 empty_world refl

main_silent_example :
    (main store
      (λ c. [])
      (record flags { cleanup = true })
      port_taken
      0
      (fresh empty_world)).1.proxy_calls
    ≡ []
main_silent_example =
    main_silent store (λ c. []) (record flags { cleanup = true }) port_taken 0 empty_world refl refl

-- The proxy starts, and one flow comes that buys nothing.
abbrev idle_proxy : Outside
idle_proxy = record port_taken { start_error = none; flows = other_flow ∷ [] }

no_buy : first_buy (other_flow ∷ []) ≡ none
unfolding first_buy contains has_prefix
no_buy = refl

capture_waits_iff_example : (capture store flags idle_proxy 0 (fresh empty_world)).0 ≡ waiting
capture_waits_iff_example =
    (capture_waits_iff store flags idle_proxy 0 (fresh empty_world) refl refl refl).1 no_buy
