-- ===== src/App.antt =====
-- ipaversionlib/appstore_download.go and the first half of ipaversionlib/app.go: the store's answer
-- read as an app.
pub mod Laws
pub mod Panics
use ipaversion.Base.{ℕ, Bool, Option, none, some, List, [], ◌∷◌, ◌++◌, if◌then◌else◌}
use ipaversion.Base.Text.{Text, Bytes, codes, text_is_empty}
use ipaversion.Outcome.{
  Outcome, ok, err, panic, ◌>>=◌, Result, done, failed, outcome, or_panic, interface_conversion,
}
use ipaversion.Plist.{Value, text, uint64, slice, other, Values, nil, cons, Metadata, get}
use ipaversion.Plist.{Sinf, DownloadItemResult, DownloadResult}
use ipaversion.World.{Env}

pub record AppInfo : Type 0 where
  pub item : DownloadItemResult
  pub response : Bytes
  pub bundle_display_name : Text
  pub bundle_short_version_string : Text
  pub software_version_external_identifier : ℕ
  pub software_version_external_identifiers : List ℕ
  pub item_name : Text
  pub artist_name : Text

abbrev pub failure_message : DownloadResult → Text
failure_message r =
    codes "failureType: " ++ (r.failure_type ++ (codes ", customerMessage: " ++ r.customer_message))

first_item : List DownloadItemResult → Outcome DownloadItemResult
first_item [] = err (codes "no items in the result")
first_item (i ∷ is) = ok i

pub check_result : DownloadResult → Outcome DownloadItemResult
unfolding first_item text_is_empty
check_result r =
    if text_is_empty r.failure_type then first_item r.items else err (failure_message r)

-- `GetDownloadItemResult`
unfoldable pub get_download_item_result : Env → Bytes → Outcome DownloadItemResult
unfolding check_result
get_download_item_result env response = do
  r ← outcome (env.unmarshal_download response)
  check_result r

-- The type assertions `v.(string)`, `v.(uint64)` and `v.([]interface{})`.
unfoldable pub as_string : Option Value → Outcome Text
as_string (some (text s)) = ok s
as_string _ = panic interface_conversion

unfoldable pub as_uint64 : Option Value → Outcome ℕ
as_uint64 (some (uint64 n)) = ok n
as_uint64 _ = panic interface_conversion

unfoldable pub as_slice : Option Value → Outcome Values
as_slice (some (slice vs)) = ok vs
as_slice _ = panic interface_conversion

-- The loop that appends `tmpID.(uint64)`.
unfoldable pub version_ids : Values → Outcome (List ℕ)
unfolding as_uint64
version_ids nil = ok []
version_ids (cons v vs) = do n ← as_uint64 (some v); ns ← version_ids vs; ok (n ∷ ns)

-- The assertions on the entries of the metadata, and the record that they fill.
assemble :
    DownloadItemResult
    → Bytes
    → List ℕ
    → Option Value
    → Option Value
    → Option Value
    → Option Value
    → Option Value
    → Outcome AppInfo
unfolding as_string as_uint64
assemble item response ids display_name short_version id item_name artist_name = do
  display_name ← as_string display_name
  short_version ← as_string short_version
  id ← as_uint64 id
  item_name ← as_string item_name
  artist_name ← as_string artist_name
  ok (record {
    item = item;
    response = response;
    bundle_display_name = display_name;
    bundle_short_version_string = short_version;
    software_version_external_identifier = id;
    software_version_external_identifiers = ids;
    item_name = item_name;
    artist_name = artist_name;
  })

-- `GetAppInfo` once the item is there.
app_of : Bytes → DownloadItemResult → Outcome AppInfo
unfolding as_slice version_ids assemble
app_of response item = do
  let m = item.metadata
  tmp_ids ← as_slice (get m (codes "softwareVersionExternalIdentifiers"))
  ids ← version_ids tmp_ids
  assemble item response ids (get m (codes "bundleDisplayName"))
      (get m (codes "bundleShortVersionString")) (get m (codes "softwareVersionExternalIdentifier"))
      (get m (codes "itemName")) (get m (codes "artistName"))

-- `GetAppInfo`
unfoldable pub get_app_info : Env → Bytes → Outcome AppInfo
unfolding get_download_item_result app_of
get_app_info env response = do item ← get_download_item_result env response; app_of response item
