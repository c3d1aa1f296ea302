-- ===== src/Tests/Sale.antt =====
-- An interleaved run over a store that sells, from the buy request to the package.
use ipaversion.Base.{◌≡◌, ◌≢◌, refl, none, some, [], ◌∷◌}
use ipaversion.Base.Text.{codes, text_eq, contains, has_prefix}
use ipaversion.Outcome.{done}
use ipaversion.Console.Lifetime.Scheduled.{scheduled_lem}
use ipaversion.Console.Lifetime.Onward.{StandsAt, has_returned}
use ipaversion.Console.Lifetime.{Exit, Leads}
use ipaversion.Console.Lifetime.Bought.{sold_shell, interleaved_lem, interleaved_returns}
use ipaversion.Console.Whole.{capture_whole}
use ipaversion.Addon.Once.{first_buy}
use ipaversion.World.{archive}
use ipaversion.Tests.Downloads.{patched, seal}
use ipaversion.Base.{ap, ◌++◌}
use ipaversion.Console.{Shell, turn_on_proxy, returned}
use ipaversion.Console.Lifetime.{
  Point, completed, exited, Life, create_then, proceed, flow_step, main_moves, flow_moves,
  start_life, Lives, born, moved,
}
use ipaversion.Console.Lifetime.Alone.{Setting, alone}
use ipaversion.Tests.Fixtures.{store, notes, ipa, no_files, buy, empty_world}
use ipaversion.Tests.Whole.{flags, buy-GoesWell}
use ipaversion.Tests.Lifetimes.{flows, buy-IsBuy}

-- The store sells, and the user types the index of the first version.
abbrev sale : Setting
sale = record {
  env = store;
  f = flags;
  new_proxy = done tt;
  reads = some (codes "0\n") ∷ [];
  flows = flows;
  w = empty_world;
}

bought_first : first_buy (buy ∷ []) ≡ some buy
unfolding first_buy contains has_prefix
bought_first = refl

returned_point : {p : Point} → StandsAt returned p → p ≡ exited completed
returned_point has_returned = refl

sold :
    (d : Life) × Lives store flags (done tt) sale.reads flows empty_world d
    × (d.point ≡ exited completed)
unfolding contains has_prefix
sold =
    let (d, l, agrees) = scheduled_lem sale 0 1 refl refl in
    let whole =
      capture_whole store flags (alone sale 0) no_files (λ p. none) 0 [] buy notes notes ipa seal
        (codes "metadata") (buy-GoesWell (buy ∷ []) bought_first) 0 refl refl in
    (d, l, returned_point (rw whole at agrees.1))

interleaved_lem_example :
    sold.0.shell.world.files (codes "Notes 1.2.ipa") ≡ some (archive (patched ++ seal))
unfolding text_eq
interleaved_lem_example =
    ap (λ (s : Shell). s.world.files (codes "Notes 1.2.ipa"))
      (interleaved_lem store flags (done tt) sale.reads no_files (λ p. none) 0 [] buy notes notes
        ipa seal (codes "metadata") (buy-GoesWell (buy ∷ []) bought_first) (λ k buys. refl) refl
        refl sold.1 sold.2)

-- The store sells, and the second flow has taken the mutex.
abbrev sale_at : Life → Life
sale_at c = proceed store flags.skip_proxy (done tt) sale.reads c.point c

abbrev selling : Life
selling =
    flow_step store flows 1
      (sale_at (sale_at (sale_at (start_life store flags (done tt) sale.reads flows empty_world))))

selling-Lives : Lives store flags (done tt) sale.reads flows empty_world selling
unfolding proceed turn_on_proxy create_then flow_step
selling-Lives =
    moved (moved (moved (moved born main_moves) main_moves) main_moves) (flow_moves 1 tt)

still_selling : (x : Exit) → selling.point ≢ exited x
unfolding proceed turn_on_proxy create_then flow_step
still_selling x h = cc

interleaved_returns_example :
    (d : Life) × Leads store flags (done tt) sale.reads flows selling d
    × (d.point ≡ exited completed)
    × (d.shell
        ≡ sold_shell store flags
            (done tt)
            sale.reads
            no_files
            (λ p. none)
            0
            []
            buy
            notes
            notes
            ipa
            seal
            (codes "metadata")
            (buy-GoesWell (buy ∷ []) bought_first))
interleaved_returns_example =
    interleaved_returns store flags (done tt) sale.reads no_files (λ p. none) 0 [] buy notes notes
      ipa seal (codes "metadata") 0 (buy-GoesWell (buy ∷ []) bought_first) (λ k buys. refl)
      buy-IsBuy refl refl selling-Lives still_selling
