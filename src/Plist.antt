-- ===== src/Plist.antt =====
-- The property lists of the store, as ipaversionlib/appstore_download.go and
-- ipaversionlib/appstore_replicate_sinf.go declare them, and the values of a
-- `map[string]interface{}`. How bytes are read as such is the plist library's, a parameter.
use ipaversion.Base.{ℕ, Option, none, some, List, [], ◌∷◌, if◌then◌else◌}
use ipaversion.Base.Text.{Text, Bytes, text_eq}
use ipaversion.Base.Int.{ℤ}

-- The dynamic types that the source asserts; `other` stands for every other one.
mutual
  pub data Value : Type 0 where
    text : Text → Value
    uint64 : ℕ → Value
    slice : Values → Value
    other : ℕ → Value

  pub data Values : Type 0 where
    nil : Values
    cons : Value → Values → Values

abbrev pub Metadata : Type 0
Metadata = List (Text × Value)

-- A key that is missing reads as nil, which fails every assertion.
unfoldable pub get : Metadata → Text → Option Value
unfolding text_eq
get [] key = none
get ((k, v) ∷ m) key = if text_eq k key then some v else get m key

pub record Sinf : Type 0 where
  pub id : ℤ
  pub content : Bytes

pub record DownloadItemResult : Type 0 where
  pub md5 : Text
  pub url : Text
  pub artwork_url : Text
  pub sinfs : List Sinf
  pub metadata : Metadata

pub record DownloadResult : Type 0 where
  pub failure_type : Text
  pub customer_message : Text
  pub items : List DownloadItemResult

pub record PackageManifest : Type 0 where
  pub sinf_paths : List Text

pub record PackageInfo : Type 0 where
  pub bundle_executable : Text
