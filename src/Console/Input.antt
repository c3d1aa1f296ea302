-- ===== src/Console/Input.antt =====
-- `handleInput`: the loop that reads an index or a command.
use ipaversion.Base.{
  ℕ, zero, suc, Bool, true, false, ◌||◌, Option, none, some, List, [], ◌∷◌, ◌++◌, get_elem?,
  if◌then◌else◌,
}
use ipaversion.Base.Int.{ℤ, pos, negsuc}
use ipaversion.Base.Text.{Text, codes, text_eq, is_digit, trim_space, fields, atoi, decimal}
use ipaversion.Outcome.{Outcome, ok, err, panic, index_out_of_range}
use ipaversion.App.{AppInfo}
use ipaversion.Download.{download_app}
use ipaversion.World.{Env, World, Action, pure, lift, write_file, plain}

-- Whether the loop goes on after a round.
pub data Next : Type 0 where
  again : Next
  leave : Next

-- An error is printed and the loop goes on; without one, `next` says how.
abbrev pub printed : {A : Type 0} → Next → Outcome A × World → Outcome Next × World
printed next (ok a, w) = (ok next, w)
printed next (err e, w) = (ok again, w)
printed next (panic p, w) = (panic p, w)

-- The name of the file that `dump` writes.
abbrev pub xml_name : AppInfo → Text
xml_name app =
    app.bundle_display_name
    ++ (codes "_"
        ++ (app.bundle_short_version_string
            ++ (codes "_" ++ (decimal app.software_version_external_identifier ++ codes ".xml"))))

module _ (env : Env) (versions : List AppInfo) (user_agent : Text) where
  unfoldable pub download_version : Option AppInfo → Action Next
  download_version none w = (ok again, w)
  download_version (some app) w = printed leave (download_app env app user_agent true w)

  -- The input is a number.
  unfoldable pub on_index : Option ℤ → Action Next
  unfolding download_version
  on_index none = pure again
  on_index (some (negsuc n)) = pure leave
  on_index (some (pos i)) = download_version (get_elem? versions i)

  unfoldable pub dump_version : Option AppInfo → Action Next
  dump_version none w = (ok again, w)
  dump_version (some app) w = printed again (write_file (xml_name app) (plain app.response) w)

  unfoldable pub on_dump : Option ℤ → Action Next
  unfolding dump_version
  on_dump none = pure again
  on_dump (some (negsuc n)) = pure again
  on_dump (some (pos i)) = dump_version (get_elem? versions i)

  -- The words after `d` or `dump`.
  unfoldable pub on_dump_words : List Text → Action Next
  unfolding on_dump
  on_dump_words [] = pure again
  on_dump_words (word ∷ words) = on_dump (atoi word)

  unfoldable pub on_command : List Text → Action Next
  unfolding on_dump_words
  on_command [] = lift (panic index_out_of_range)
  on_command (command ∷ words) =
      if text_eq command (codes "?")
      then pure again
      else if text_eq command (codes "exit")
      then pure leave
      else if text_eq command (codes "d") || text_eq command (codes "dump")
      then on_dump_words words
      else pure again

  -- `input[0]` of an empty input panics.
  unfoldable pub on_input : Text → Action Next
  unfolding on_index on_command
  on_input [] = lift (panic index_out_of_range)
  on_input (c ∷ input) =
      if is_digit c then on_index (atoi (c ∷ input)) else on_command (fields (c ∷ input))

  -- One round, on what `ReadString` returned: a line, or none with an error.
  unfoldable pub handle_read : Option Text → Action Next
  unfolding on_input
  handle_read none = pure again
  handle_read (some line) = on_input (trim_space line)

-- Each `ReadString` takes the next read. After the last one it is at the end of the file.
abbrev pub next_read : List (Option Text) → Option Text
next_read [] = none
next_read (r ∷ reads) = r

abbrev pub later_reads : List (Option Text) → List (Option Text)
later_reads [] = []
later_reads (r ∷ reads) = reads

-- What follows a round: the loop is left, or goes on as `rest`.
abbrev pub then_loop : Outcome Next × World → Action Bool → Outcome Bool × World
then_loop (ok leave, w) rest = (ok true, w)
then_loop (ok again, w) rest = rest w
then_loop (err e, w) rest = (err e, w)
then_loop (panic p, w) rest = (panic p, w)

-- `handleInput`: `true` if the loop is left, `false` if it still runs after `rounds` rounds.
unfoldable pub handle_input : Env → List AppInfo → Text → ℕ → List (Option Text) → Action Bool
unfolding handle_read
handle_input env versions user_agent zero reads w = (ok false, w)
handle_input env versions user_agent (suc rounds) reads w =
    then_loop (handle_read env versions user_agent (next_read reads) w)
      (handle_input env versions user_agent rounds (later_reads reads))
