-- ===== src/World/Zip.antt =====
-- `archive/zip`: readers of an archive and writers of one.
use ipaversion.Base.{ℕ, Option, none, some, List, [], ◌∷◌, ◌++◌}
use ipaversion.Base.Text.{Text, Bytes, codes}
use ipaversion.Outcome.{Outcome, ok, err}
use ipaversion.World.Disk.{Entry, Content, archive, unfinished}
use ipaversion.World.State.{Fault, World, Action}
use ipaversion.World.Monad.{◌>>=◌, ◌>>◌, lift}
use ipaversion.World.Calls.{system_call, set_file, set_writer, file_at}

abbrev archive_entries : Content → Outcome (List Entry)
archive_entries (archive es) = ok es
archive_entries _ = err (codes "zip: not a valid zip file")

-- `zip.OpenReader`
unfoldable pub open_reader : Text → Action (List Entry)
unfolding system_call
open_reader path = do system_call; c ← file_at path; lift (archive_entries c)

-- `zip.NewWriter` on the file at `path`, which is empty until the writer is closed.
unfoldable pub new_writer : Text → Action (Unit {0})
new_writer path = set_writer path (some [])

-- What the writer at `path` holds; a writer that was closed takes nothing more.
abbrev written : Option (List Entry) → Outcome (List Entry)
written none = err (codes "zip: write to closed writer")
written (some es) = ok es

abbrev writer_at : Text → Action (List Entry)
writer_at path w = (written (w.writers path), w)

-- The data goes to the entry that was created last.
unfoldable pub append_data : List Entry → Bytes → List Entry
append_data [] data' = []
append_data (e ∷ []) data' = record e { content = e.content ++ data' } ∷ []
append_data (e ∷ f ∷ es) data' = e ∷ append_data (f ∷ es) data'

-- `Writer.CreateRaw`, which keeps the header.
unfoldable pub create_raw : Text → Text → ℕ → Action (Unit {0})
unfolding system_call
create_raw path name header = do
  system_call
  es ← writer_at path
  set_writer path (some (es ++ (record { name = name; header = header; content = [] } ∷ [])))

-- `Writer.Create`, with a header of its own.
unfoldable pub create_entry : Text → Text → Action (Unit {0})
unfolding create_raw
create_entry path name = create_raw path name 0

put_data : Text → Bytes → Action (Unit {0})
unfolding append_data
put_data path data' = do es ← writer_at path; set_writer path (some (append_data es data'))

put_with : Text → Bytes → List (Option Fault) → Action (Unit {0})
unfolding put_data
put_with path data' [] w = put_data path data' w
put_with path data' (none ∷ fs) w = put_data path data' (record w { faults = fs })
put_with path data' (some f ∷ fs) w =
    (err f.message, (put_data path (f.taken data') (record w { faults = fs })).1)

-- A write to the file that was created last, or a copy into it. How much of the data a write that
-- fails has written is the fault's choice.
unfoldable pub write_entry : Text → Bytes → Action (Unit {0})
unfolding put_with
write_entry path data' w = put_with path data' w.faults w

finish_close : Text → List Entry → Outcome (Unit {0}) × World → Outcome (Unit {0}) × World
finish_close path es (ok _, w) = (set_writer path none >> set_file path (some (archive es))) w
finish_close path es (r, w) =
    (r, ((set_writer path none >> set_file path (some (unfinished es))) w).1)

close_with : Text → Option (List Entry) → Action (Unit {0})
unfolding finish_close system_call
close_with path none w = (err (codes "zip: writer closed twice"), w)
close_with path (some es) w = finish_close path es (system_call w)

-- `Writer.Close` writes the central directory. A second call does nothing.
unfoldable pub close_writer : Text → Action (Unit {0})
unfolding close_with
close_writer path w = close_with path (w.writers path) w
