-- ===== src/Tests/Fixtures.antt =====
-- A store of one app with two versions, a server and a world.
use ipaversion.Base.{ℕ, zero, suc, refl, none, some, List, [], ◌∷◌, true, false, if◌then◌else◌}
use ipaversion.Base.Int.{pos}
use ipaversion.Base.Text.{Bytes, codes, text_eq}
use ipaversion.Outcome.{Result, done, failed}
use ipaversion.Plist.{
  Metadata, text, uint64, slice, nil, cons, get, DownloadItemResult, DownloadResult,
}
use ipaversion.World.{
  Fault, plain, Env, World, Request, Response, Entry, Content, gzip, archive, Files,
}
use ipaversion.World.Quiet.{quiet}
use ipaversion.App.{AppInfo}
use ipaversion.App.Laws.{IsAnswer}
use ipaversion.Addon.{Session}

abbrev pub metadata : Metadata
metadata =
    (codes "softwareVersionExternalIdentifiers", slice (cons (uint64 7) (cons (uint64 9) nil)))
    ∷ (codes "bundleDisplayName", text (codes "Notes"))
    ∷ (codes "bundleShortVersionString", text (codes "1.2"))
    ∷ (codes "softwareVersionExternalIdentifier", uint64 9)
    ∷ (codes "itemName", text (codes "Notes"))
    ∷ (codes "artistName", text (codes "Acme"))
    ∷ []

abbrev pub item : DownloadItemResult
item = record {
  md5 = [];
  url = codes "https://cdn/notes.ipa";
  artwork_url = [];
  sinfs = record { id = pos 0; content = 5 ∷ [] } ∷ [];
  metadata = metadata;
}

abbrev pub answer_bytes : Bytes
answer_bytes = codes "store"

abbrev pub result : DownloadResult
result = record { failure_type = []; customer_message = []; items = item ∷ [] }

abbrev pub refusal : DownloadResult
refusal = record { failure_type = codes "2034"; customer_message = codes "Sign in"; items = [] }

abbrev pub notes : AppInfo
notes = record {
  item = item;
  response = answer_bytes;
  bundle_display_name = codes "Notes";
  bundle_short_version_string = codes "1.2";
  software_version_external_identifier = 9;
  software_version_external_identifiers = 7 ∷ 9 ∷ [];
  item_name = codes "Notes";
  artist_name = codes "Acme";
}

abbrev pub ipa : List Entry
ipa =
    record { name = codes "Payload/Notes.app/Info.plist"; header = 1; content = codes "info" }
    ∷ record { name = codes "Payload/Notes.app/Notes"; header = 2; content = codes "code" }
    ∷ []

unfoldable pub unmarshal : Bytes → Result DownloadResult
unmarshal [] = failed (codes "EOF")
unmarshal (c ∷ b) = done (if text_eq (c ∷ b) answer_bytes then result else refusal)

abbrev pub reply : Content → Response
reply c = record {
  status_code = 200;
  status = codes "200 OK";
  content_length = codes "12";
  body = c;
}

-- The n-th answer; the first query of a version meets an error of the network.
abbrev answer_to : ℕ → Result Response
answer_to zero = done (reply (gzip answer_bytes))
answer_to (suc zero) = failed (codes "timeout")
answer_to (suc (suc n)) = done (reply (gzip answer_bytes))

-- A download is sent the package.
unfoldable pub serve_store : ℕ → Request → Result Response
serve_store n req =
    if text_eq req.method (codes "GET") then done (reply (archive ipa)) else answer_to n

abbrev pub store : Env
store = record {
  unmarshal_download = unmarshal;
  unmarshal_manifest = λ b. failed (codes "no manifest");
  unmarshal_info = λ b. done (record { bundle_executable = codes "Notes" });
  marshal_indent = λ m. done (codes "metadata");
  request_is_valid = λ m u. true;
  server = serve_store;
}

-- A store that refuses every request.
abbrev pub closed_store : Env
closed_store = record store { server = λ n req. done (reply (gzip (codes "no"))) }

abbrev pub no_files : Files
no_files p = none

abbrev pub empty_world : World
empty_world = quiet no_files (λ p. none) 0 []

abbrev pub buy : Request
buy = record {
  method = codes "POST";
  url = codes "https://p25-buy.itunes.apple.com/WebObjects/MZBuy.woa/wa/buyProduct";
  header = [];
  body = codes "<string>9</string>";
}

abbrev pub other_flow : Request
other_flow = record { method = codes "GET"; url = codes "https://x/"; header = []; body = [] }

abbrev pub session : Session
session = record {
  addon = record {
    lock = false;
    done = [];
    start = pos 0;
    end = pos 9223372036854775807;
    history_versions = [];
    client_user_agent = [];
    dump_responses = false;
    counter = 0;
  };
  world = empty_world;
}

pub notes-IsAnswer : IsAnswer store answer_bytes notes
unfolding unmarshal text_eq get
notes-IsAnswer = record {
  result = result;
  rest = [];
  parsed = refl;
  no_failure = refl;
  first = refl;
  kept = refl;
  described = record {
    ids = refl;
    display_name = refl;
    short_version = refl;
    id = refl;
    item_name = refl;
    artist_name = refl;
  };
}

-- A call that fails on a full disk: a write leaves the file empty, and nothing in an archive's entry.
abbrev pub disk_full : Fault
disk_full = record {
  message = codes "disk full";
  left = λ old new. some (plain []);
  taken = λ bytes. [];
}
