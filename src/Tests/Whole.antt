-- ===== src/Tests/Whole.antt =====
-- Runs of several parts: a dump that is downloaded later, and a whole process.
use ipaversion.Base.{List, ◌≡◌, refl, ap, inl, false, some, none, [], ◌∷◌, ◌++◌, get_elem?, arith}
use ipaversion.Base.Int.{pos}
use ipaversion.Base.Text.{
  Text, codes, decimal, trim_space, is_space, fields, is_digit, text_eq, contains, has_prefix,
}
use ipaversion.Outcome.{done}
use ipaversion.Http.{gzip_decode_reader}
use ipaversion.Download.{download_app}
use ipaversion.App.Laws.{get_app_info_iff, IsRead}
use ipaversion.World.{Request, archive}
use ipaversion.Addon.{index_range}
use ipaversion.Addon.Retry.{first_app}
use ipaversion.Addon.History.{found, version}
use ipaversion.Addon.Once.{first_buy}
use ipaversion.Console.{Flags, Outside, Ending, Shell, handle_read, read_input, xml_name, main}
use ipaversion.Console.Dump.{AsksDump, dump-read_input}
use ipaversion.Console.Cleanup.{fresh}
use ipaversion.Console.Whole.{GoesWell, versions, main_lem}
use ipaversion.Tests.Fixtures.{
  store, serve_store, notes, notes-IsAnswer, answer_bytes, buy, other_flow, no_files, empty_world,
  ipa,
}
use ipaversion.Tests.Downloads.{store-Serves, ipa-Needs, patched, seal}

abbrev dump_line : Text
dump_line = codes "d 0\n"

dump_line-AsksDump : AsksDump dump_line 0
unfolding trim_space is_space fields is_digit decimal
dump_line-AsksDump = record {
  first = 0x64;
  rest = codes " 0";
  trimmed = refl;
  no_index = refl;
  command = codes "d";
  words = [];
  split = refl;
  is_dump = inl refl;
}

notes-IsRead : IsRead store notes
notes-IsRead = (get_app_info_iff store answer_bytes notes).1 notes-IsAnswer

dump-read_input_example :
    let w = (handle_read store (notes ∷ []) [] (some dump_line) empty_world).1 in
    read_input store (λ c. []) (xml_name notes) w ≡ download_app store notes [] false w
dump-read_input_example =
    dump-read_input store (notes ∷ []) [] no_files (λ p. none) 0 [] (λ c. []) dump_line 0 notes
      dump_line-AsksDump (ground arith) refl notes-IsRead

abbrev pub flags : Flags
flags = record {
  show_version = false;
  show_help = false;
  input = [];
  proxy_status = false;
  cleanup = false;
  skip_proxy = false;
  dump = false;
  start = pos 0;
  end = pos 9223372036854775807;
}

-- The user types the index of the first version.
abbrev outside : Outside
outside = record {
  new_proxy = done tt;
  start_error = none;
  flows = other_flow ∷ (buy ∷ []);
  reads = some (codes "0\n") ∷ [];
  signalled = false;
}

-- The query of the first version meets an error of the network, and is answered when it is repeated.
first_app-notes :
    (req : Request)
    → text_eq req.method (codes "GET") ≡ false
    → first_app store req 3 1 ≡ some notes
unfolding first_app serve_store gzip_decode_reader
first_app-notes req h = rw (h, notes-IsRead)

listed : get_elem? (versions store flags outside no_files (λ p. none) 0 [] buy notes) 0 ≡ some notes
unfolding found text_eq index_range
listed = rw (first_app-notes (version store buy 9 7) refl)

pub buy-GoesWell :
    (flows : List Request)
    → first_buy flows ≡ some buy
    → GoesWell store flags
        (record outside { flows = flows; signalled = false })
        no_files
        (λ p. none)
        0
        []
        buy
        notes
        notes
        ipa
        seal
        (codes "metadata")
unfolding trim_space is_space decimal serve_store text_eq gzip_decode_reader
buy-GoesWell flows bought = record {
  created = refl;
  started = refl;
  bought = bought;
  valid = refl;
  answered = notes-IsRead;
  line = codes "0\n";
  reads = [];
  typed = refl;
  index = 0;
  trimmed = refl;
  small = ground arith;
  listed = listed;
  serves = store-Serves _ _;
  marshals = refl;
  needs = ipa-Needs;
}

bought_later : first_buy outside.flows ≡ some buy
unfolding first_buy contains has_prefix
bought_later = refl

main_lem_example :
    (main store (λ c. []) flags outside 1 (fresh empty_world)).1.world.files (codes "Notes 1.2.ipa")
    ≡ some (archive (patched ++ seal))
unfolding text_eq
main_lem_example =
    ap (λ (x : Ending × Shell). x.1.world.files (codes "Notes 1.2.ipa"))
      (main_lem store flags outside no_files (λ p. none) 0 [] buy notes notes ipa seal
        (codes "metadata") (buy-GoesWell outside.flows bought_later) (λ c. []) 0
        (record {
          no_help = refl;
          no_version = refl;
          no_input = refl;
          no_status = refl;
          no_cleanup = refl;
          no_skip = refl;
          no_dump = refl;
        }))
