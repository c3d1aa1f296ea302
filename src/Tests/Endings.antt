-- ===== src/Tests/Endings.antt =====
-- A download that fails and is tried again, and the ends of the input loop.
use ipaversion.Base.{
  arith, ℕ, ◌≡◌, ◌⊎◌, refl, true, false, Option, none, some, List, [], ◌∷◌, ◌++◌, get_elem?,
}
use ipaversion.Base.Text.{
  decimal, Text, codes, text_eq, trim_space, is_space, is_digit, fields, atoi,
}
use ipaversion.Outcome.{ok, panic, index_out_of_range}
use ipaversion.World.{World, system_call, create, write_file}
use ipaversion.Download.{download_app, download_file}
use ipaversion.Download.Complete.{downloaded}
use ipaversion.Download.Again.{attempts, download_app_again}
use ipaversion.Console.{handle_input, handle_read, on_input, on_command}
use ipaversion.Console.Left.{AsksExit, Sold, handle_input_left}
use ipaversion.Console.Again.{Fails, handle_input_again}
use ipaversion.Console.Crash.{IsBlank, LacksSinfs, handle_input_panic}
use ipaversion.Tests.Fixtures.{disk_full, store, serve_store, notes, no_files, empty_world}
use ipaversion.Tests.Downloads.{patched, seal, store-Serves, ipa-Needs}

-- The disk is full when the body is copied, and the temporary file is left empty.
abbrev full_once : World
full_once = record {
  files = no_files;
  writers = λ q. none;
  faults = none ∷ (some disk_full ∷ []);
  calls = 0;
  sent = [];
}

no_fault_left : (attempts store notes [] 1 full_once).faults ≡ []
unfolding download_app system_call create serve_store atoi text_eq download_file write_file
no_fault_left = refl

download_app_again_example :
    let (result, v) = download_app store notes [] true (attempts store notes [] 1 full_once) in
    (result ≡ ok (codes "Notes 1.2.ipa", false))
    × (v.files ≡ downloaded no_files (codes "Notes 1.2.ipa") (patched ++ seal))
download_app_again_example =
    download_app_again store notes [] 1 full_once _ seal (codes "metadata") no_fault_left
      (store-Serves (attempts store notes [] 1 full_once).calls []) refl ipa-Needs

abbrev lines : List (Option Text)
lines = some (codes "?\n") ∷ (some (codes " exit\r\n") ∷ [])

left_by_exit : handle_input store (notes ∷ []) [] 5 lines empty_world ≡ (ok true, empty_world)
unfolding handle_input handle_read on_input on_command trim_space is_space fields is_digit text_eq
left_by_exit = refl

handle_input_left_example :
    (j : ℕ) × (line : Text) × (get_elem? lines j ≡ some (some line))
    × (AsksExit line ⊎ Sold store (notes ∷ []) [] (trim_space line) empty_world)
handle_input_left_example =
    handle_input_left store (notes ∷ []) [] 5 lines empty_world empty_world left_by_exit

abbrev blank_line : List (Option Text)
blank_line = some (codes " \n") ∷ []

panics_on_blank :
    handle_input store (notes ∷ []) [] 5 blank_line empty_world
    ≡ (panic index_out_of_range, empty_world)
unfolding handle_input handle_read on_input on_command trim_space is_space fields is_digit text_eq
panics_on_blank = refl

handle_input_panic_example :
    (index_out_of_range ≡ index_out_of_range)
    × (j : ℕ) × (line : Text) × (get_elem? blank_line j ≡ some (some line))
    × (IsBlank line ⊎ LacksSinfs store (notes ∷ []) [] (trim_space line))
handle_input_panic_example =
    handle_input_panic store (notes ∷ []) [] 5 blank_line empty_world index_out_of_range empty_world
      panics_on_blank

-- The first download fails on the full disk.
first_Fails : Fails store [] notes 1 full_once
unfolding download_app system_call create serve_store atoi text_eq download_file write_file
first_Fails = (codes "disk full", refl, tt)

abbrev index_line : Text
index_line = codes "0\n"

index_line-trim : trim_space index_line ≡ decimal 0
unfolding trim_space is_space decimal
index_line-trim = refl

handle_input_again_example :
    let (result, v) =
      handle_input store (notes ∷ []) [] 2 (some index_line ∷ (some index_line ∷ [])) full_once in
    (result ≡ ok true) × (v.files ≡ downloaded no_files (codes "Notes 1.2.ipa") (patched ++ seal))
handle_input_again_example =
    handle_input_again store (notes ∷ []) [] notes index_line 0 index_line-trim (omega arith) refl 1
      0 [] full_once _ seal (codes "metadata") first_Fails no_fault_left
      (store-Serves (attempts store notes [] 1 full_once).calls []) refl ipa-Needs
