-- ===== src/Console/Help.antt =====
-- The version, and the table of commands that `?` and the usage text print.
use ipaversion.Base.{◌-◌, List, [], ◌∷◌, ◌++◌, length}
use ipaversion.Base.Text.{spaces, Text, codes, base_name}

-- `availableCommands`
abbrev pub available_commands : List (Text × Text)
available_commands =
    (codes "?", codes "show help message")
    ∷ (codes "exit", codes "exit")
    ∷ (codes "d|dump <index>", codes "dump response data (of the given index) to file")
    ∷ []

-- `fmt.Sprintf("%-20s %s\n", name, help)`
command_line : Text → Text → Text
unfolding spaces
command_line name help = (name ++ spaces (20 - length name)) ++ (0x20 ∷ (help ++ (0xa ∷ [])))

command_lines : List (Text × Text) → Text
unfolding command_line
command_lines [] = []
command_lines ((name, help) ∷ commands) = command_line name help ++ command_lines commands

-- What `printAvailableCommands` writes.
unfoldable pub print_available_commands : Text
unfolding command_lines
print_available_commands = command_lines available_commands

abbrev pub version_number : Text
version_number = codes "v0.2.1"

-- `Name`, from `os.Args[0]`.
abbrev pub program_name : Text → Text
program_name path = base_name path

-- What `-v` prints; the hash is set when the program is built.
unfoldable pub version_line : Text → Text → Text
version_line path git_hash =
    program_name path
    ++ (codes " version " ++ (version_number ++ (0x20 ∷ (git_hash ++ (0xa ∷ [])))))
