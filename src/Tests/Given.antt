-- ===== src/Tests/Given.antt =====
-- A saved answer that is given with `-i` twice.
use ipaversion.Base.{◌≡◌, refl, inr, ◌∙◌, true, false, none, some, [], ◌∷◌, ◌++◌}
use ipaversion.Base.Text.{Text, codes, text_eq}
use ipaversion.Outcome.{ok}
use ipaversion.World.{World, plain, update, system_call}
use ipaversion.World.Quiet.{quiet}
use ipaversion.Download.{download_app}
use ipaversion.Download.Complete.{downloaded, download_request, download_app_complete}
use ipaversion.Console.{read_input}
use ipaversion.Console.Twice.{read_input_twice}
use ipaversion.App.{get_app_info}
use ipaversion.App.Laws.{get_app_info_iff}
use ipaversion.Tests.Fixtures.{store, notes, notes-IsAnswer, answer_bytes, no_files, ipa, item}
use ipaversion.Tests.Downloads.{store-Serves, ipa-Needs, patched, seal}

abbrev saved_answer : Text
saved_answer = codes "saved.xml"

abbrev given : World
given = quiet (update no_files saved_answer (some (plain answer_bytes))) (λ p. none) 0 []

abbrev fetched : World
fetched =
    quiet
      (downloaded (update no_files saved_answer (some (plain answer_bytes))) (codes "Notes 1.2.ipa")
        (patched ++ seal))
      (update (update (λ p. none) (codes "Notes 1.2.ipa") none) (codes "Notes 1.2.ipa.tmp") none) 1
      (download_request item.url [] ∷ [])

answer-read : get_app_info store answer_bytes ≡ ok notes
answer-read = (get_app_info_iff store answer_bytes notes).1 notes-IsAnswer

given-loaded :
    read_input store (λ c. []) saved_answer given ≡ download_app store notes [] false given
unfolding read_input system_call text_eq
given-loaded = rw answer-read

no_package : update no_files saved_answer (some (plain answer_bytes)) (codes "Notes 1.2.ipa") ≡ none
unfolding text_eq
no_package = refl

given-fetched :
    read_input store (λ c. []) saved_answer given ≡ (ok (codes "Notes 1.2.ipa", false), fetched)
given-fetched =
    given-loaded
    ∙ download_app_complete (update no_files saved_answer (some (plain answer_bytes))) (λ p. none) 0
        [] store notes [] false ipa seal (codes "metadata") (inr no_package) (store-Serves 0 [])
        refl ipa-Needs

read_input_twice_example :
    read_input store (λ c. []) saved_answer fetched ≡ (ok (codes "Notes 1.2.ipa", true), fetched)
unfolding text_eq
read_input_twice_example =
    read_input_twice store (λ c. []) saved_answer given fetched (codes "Notes 1.2.ipa", false)
      given-fetched refl refl refl refl
