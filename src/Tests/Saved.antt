-- ===== src/Tests/Saved.antt =====
-- The add-on's dumps at concrete flows, and the progress of a download.
use ipaversion.Base.{List, ℕ, ◌≡◌, refl, true, [], ◌∷◌, arith}
use ipaversion.Addon.{Session}
use ipaversion.Addon.Once.{serve}
use ipaversion.Addon.Dumps.{IsDumped, serve-IsDumped}
use ipaversion.Base.{◌==◌}
use ipaversion.Base.Text.{Text, Bytes}
use ipaversion.Base.Int.{ℤ, pos}
use ipaversion.Download.{new_write_counter}
use ipaversion.Download.Progress.{copied, newlines, total_length, one_if, copied_lem}
use ipaversion.Tests.Fixtures.{store, buy, other_flow, session}

abbrev dumping : Session
dumping = record session { addon = record session.addon { dump_responses = true } }

dumping-IsDumped : IsDumped dumping
dumping-IsDumped = record { dumping = refl; no_faults = refl; saved = tt }

serve-IsDumped_example : IsDumped (serve store (other_flow ∷ (buy ∷ [])) dumping)
serve-IsDumped_example = serve-IsDumped store (other_flow ∷ (buy ∷ [])) dumping dumping-IsDumped

-- Three bytes in two chunks.
abbrev chunks : List Bytes
chunks = (1 ∷ []) ∷ (2 ∷ 3 ∷ []) ∷ []

abbrev no_percent : ℕ → ℤ → Text
no_percent a b = []

no_percent-newlines : (a : ℕ) (b : ℤ) → newlines (no_percent a b) ≡ 0
unfolding newlines
no_percent-newlines a b = refl

copied_lem_example :
    let (printed, counter) = copied no_percent (new_write_counter (pos 3)) chunks in
    (counter.count ≡ total_length chunks) × (newlines printed ≡ one_if (total_length chunks == 3))
copied_lem_example =
    copied_lem no_percent no_percent-newlines 3 chunks (omega arith, (omega arith, tt))
      (omega arith) (omega arith)
