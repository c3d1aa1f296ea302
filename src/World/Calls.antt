-- ===== src/World/Calls.antt =====
-- The calls of `os` that the program makes.
use ipaversion.Base.{Option, none, some, List, [], ◌∷◌}
use ipaversion.Base.Text.{Text, codes}
use ipaversion.Outcome.{Outcome, ok, err}
use ipaversion.World.Disk.{Entry, Content, plain, update}
use ipaversion.World.State.{Fault, World, Action}
use ipaversion.World.Monad.{◌>>=◌, ◌>>◌}

take_fault : List (Option Fault) → World → Outcome (Unit {0}) × World
take_fault [] w = (ok tt, w)
take_fault (none ∷ fs) w = (ok tt, record w { faults = fs })
take_fault (some f ∷ fs) w = (err f.message, record w { faults = fs })

-- One call of the operating system.
unfoldable pub system_call : Action (Unit {0})
unfolding take_fault
system_call w = take_fault w.faults w

abbrev pub set_file : Text → Option Content → Action (Unit {0})
set_file path content w = (ok tt, record w { files = update w.files path content })

abbrev pub set_writer : Text → Option (List Entry) → Action (Unit {0})
set_writer path entries w = (ok tt, record w { writers = update w.writers path entries })

abbrev pub not_exist : Text
not_exist = codes "file does not exist"

abbrev pub existing : Option Content → Outcome Content
existing none = err not_exist
existing (some c) = ok c

abbrev pub file_at : Text → Action Content
file_at path w = (existing (w.files path), w)

-- `os.Create`: the file is there and empty.
unfoldable pub create : Text → Action (Unit {0})
unfolding system_call
create path = do system_call; set_file path (some (plain []))

unfoldable pub remove : Text → Action (Unit {0})
unfolding system_call
remove path = do system_call; file_at path; set_file path none

unfoldable pub rename : Text → Text → Action (Unit {0})
unfolding system_call
rename old new = do system_call; c ← file_at old; set_file old none; set_file new (some c)

write_with : Text → Content → List (Option Fault) → Action (Unit {0})
write_with path c [] w = set_file path (some c) w
write_with path c (none ∷ fs) w = set_file path (some c) (record w { faults = fs })
write_with path c (some f ∷ fs) w =
    (err f.message, record w { faults = fs; files = update w.files path (f.left (w.files path) c) })

-- `os.WriteFile`, and `io.Copy` of a whole body into a file that was created. What a write that
-- fails leaves in the file is the fault's choice.
unfoldable pub write_file : Text → Content → Action (Unit {0})
unfolding write_with
write_file path c w = write_with path c w.faults w
