-- ===== src/Console/Dump.antt =====
-- A response that is dumped can be given to `-i`.
use ipaversion.Base.{ℕ, ◌^◌, ◌<◌, ◌≡◌, ◌⊎◌, inl, inr, false, Option, some, List, [], ◌∷◌, get_elem?}
use ipaversion.Base.Text.{Text, Bytes, codes, trim_space, fields, decimal, is_digit, text_eq}
use ipaversion.Base.Text.Digits.{atoi-decimal}
use ipaversion.Outcome.{ok}
use ipaversion.App.{AppInfo}
use ipaversion.App.Laws.{IsRead}
use ipaversion.Download.{download_app}
use ipaversion.World.{Env, Request, Entry, Content, plain, Files, update, update_self, system_call}
use ipaversion.World.Quiet.{quiet, write_file-quiet}
use ipaversion.Console.Input.{
  xml_name, again, on_input, on_command, on_dump_words, on_dump, dump_version, handle_read,
}
use ipaversion.Console.Process.{read_input}

abbrev IsDump : Text → Type 0
IsDump command = (command ≡ codes "d") ⊎ (command ≡ codes "dump")

-- The line is a dump command for the version at index `i`.
pub record AsksDump (line : Text) (i : ℕ) : Type 0 where
  pub first : ℕ
  pub rest : Text
  pub trimmed : trim_space line ≡ first ∷ rest
  pub no_index : is_digit first ≡ false
  pub command : Text
  pub words : List Text
  pub split : fields (first ∷ rest) ≡ command ∷ (decimal i ∷ words)
  pub is_dump : IsDump command

module _ (env : Env) (versions : List AppInfo) (user_agent : Text) where
  on_command_dump :
      (command : Text) (words : List Text)
      → IsDump command
      → on_command env versions user_agent (command ∷ words)
        ≡ on_dump_words env versions user_agent words
  unfolding on_command text_eq
  on_command_dump command words (inl e) = rw e
  on_command_dump command words (inr e) = rw e

  module _ (fs : Files) (ws : Text → Option (List Entry)) (n : ℕ) (rs : List Request) where
    dumped :
        (line : Text) (i : ℕ) (a : AppInfo)
        → AsksDump line i
        → i < 2 ^ 63
        → get_elem? versions i ≡ some a
        → handle_read env versions user_agent (some line) (quiet fs ws n rs)
          ≡ (ok again, quiet (update fs (xml_name a) (some (plain a.response))) ws n rs)
    unfolding handle_read on_input on_dump_words on_dump dump_version
    dumped line i a d small at =
        rw (d.trimmed, d.no_index, d.split)
          (rw (on_command_dump d.command (decimal i ∷ d.words) d.is_dump) (
            rw (atoi-decimal i small)
              (rw at (rw (write_file-quiet fs ws n rs (xml_name a) (plain a.response))))))

    -- If no system call fails, a version is dumped by a line that asks for it, and the version is
    -- what its data is read as, then a process that is given the dumped file with `-i` does what the
    -- download of that version does.
    pub dump-read_input :
        (raw : Content → Bytes) (line : Text) (i : ℕ) (a : AppInfo)
        → AsksDump line i
        → i < 2 ^ 63
        → get_elem? versions i ≡ some a
        → IsRead env a
        → let w = (handle_read env versions user_agent (some line) (quiet fs ws n rs)).1 in
          read_input env raw (xml_name a) w ≡ download_app env a [] false w
    unfolding read_input system_call
    dump-read_input raw line i a d small at read =
        rw (dumped line i a d small at)
          (rw (update_self fs (xml_name a) (some (plain a.response))) (rw read))
