-- ===== src/World/State.antt =====
-- Requests and responses, what is outside the repository, and the state of the world.
use ipaversion.Base.{ℕ, Bool, Option, List, [], ◌∷◌, if◌then◌else◌}
use ipaversion.Base.Text.{Text, Bytes, text_eq}
use ipaversion.Outcome.{Outcome, Result}
use ipaversion.Plist.{Metadata, DownloadResult, PackageManifest, PackageInfo}
use ipaversion.World.Disk.{Entry, Content, Files}

-- `http.Header`: the values of each canonical name.
abbrev pub Header : Type 0
Header = List (Text × List Text)

first_value : List Text → Text
first_value [] = []
first_value (v ∷ vs) = v

-- `Header.Get`
unfoldable pub header_get : Header → Text → Text
unfolding first_value text_eq
header_get [] key = []
header_get ((k, vs) ∷ h) key = if text_eq k key then first_value vs else header_get h key

pub record Request : Type 0 where
  pub method : Text
  pub url : Text
  pub header : Header
  pub body : Bytes

pub record Response : Type 0 where
  pub status_code : ℕ
  pub status : Text
  pub content_length : Text
  pub body : Content

-- What is not in the repository: the plist library, the checks of `http.NewRequest`, and the
-- server, which answers the n-th request that is sent or fails to.
pub record Env : Type 0 where
  pub unmarshal_download : Bytes → Result DownloadResult
  pub unmarshal_manifest : Bytes → Result PackageManifest
  pub unmarshal_info : Bytes → Result PackageInfo
  pub marshal_indent : Metadata → Result Bytes
  pub request_is_valid : Text → Text → Bool
  pub server : ℕ → Request → Result Response

-- How a call of the system fails: its message; where it was to write a file, what is at the path
-- then, by what was there and what was to be written, so that a write may fail before it has begun
-- or half-way; and where it was to write to an archive, what of the data has got there.
pub record Fault : Type 0 where
  pub message : Text
  pub left : Option Content → Content → Option Content
  pub taken : Bytes → Bytes

pub record World : Type 0 where
  pub files : Files
  pub writers : Text → Option (List Entry)
  pub faults : List (Option Fault)
  pub calls : ℕ
  pub sent : List Request

-- A call that may change the world. What it has done stays done when it fails.
abbrev pub Action : Type 0 → Type 0
Action A = World → Outcome A × World
