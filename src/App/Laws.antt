-- ===== src/App/Laws.antt =====
-- When `GetAppInfo` succeeds, fails and panics.
use ipaversion.Base.{ℕ, ◌≡◌, ◌≢◌, ◌↔◌, inl, inr, refl, ap, ◌∙◌, Option, List, [], ◌∷◌, some, arith}
use ipaversion.Base.Text.{Text, Bytes, codes, text_is_empty}
use ipaversion.Outcome.{ok, err, done, >>=-eq-ok, outcome, Outcome-cases, >>=-ne-err}
use ipaversion.Plist.{Value, text, uint64, slice, other, Values, nil, cons, Metadata, get}
use ipaversion.Plist.{DownloadItemResult, DownloadResult}
use ipaversion.World.{Env}
use ipaversion.App.{
  AppInfo, first_item, check_result, get_download_item_result, as_string, as_uint64, as_slice,
  version_ids, assemble, app_of, get_app_info,
}

-- The list of numbers as the store sends it.
abbrev pub id_values : List ℕ → Values
id_values [] = nil
id_values (n ∷ ns) = cons (uint64 n) (id_values ns)

pub version_ids-id_values : (ns : List ℕ) → version_ids (id_values ns) ≡ ok ns
unfolding version_ids
version_ids-id_values [] = refl
version_ids-id_values (n ∷ ns) = rw (version_ids-id_values ns)

pub id_values-version_ids : (vs : Values) (ns : List ℕ) → version_ids vs ≡ ok ns → vs ≡ id_values ns
unfolding version_ids
id_values-version_ids nil ns h = ground arith
id_values-version_ids (cons (uint64 n) vs) ns h =
    let (ms, e, e') = >>=-eq-ok (version_ids vs) _ h in
    ground (arith, id_values-version_ids vs ms e)
id_values-version_ids (cons (text s) vs) ns h = cc
id_values-version_ids (cons (slice s) vs) ns h = cc
id_values-version_ids (cons (other s) vs) ns h = cc

-- The metadata that `GetAppInfo` reads, key by key.
pub record Describes (m : Metadata) (a : AppInfo) : Type 0 where
  pub ids :
      get m (codes "softwareVersionExternalIdentifiers")
      ≡ some (slice (id_values a.software_version_external_identifiers))
  pub display_name : get m (codes "bundleDisplayName") ≡ some (text a.bundle_display_name)
  pub short_version :
      get m (codes "bundleShortVersionString") ≡ some (text a.bundle_short_version_string)
  pub id :
      get m (codes "softwareVersionExternalIdentifier")
      ≡ some (uint64 a.software_version_external_identifier)
  pub item_name : get m (codes "itemName") ≡ some (text a.item_name)
  pub artist_name : get m (codes "artistName") ≡ some (text a.artist_name)

-- The bytes are a store answer whose first item describes the app.
pub record IsAnswer (env : Env) (response : Bytes) (a : AppInfo) : Type 0 where
  pub result : DownloadResult
  pub rest : List DownloadItemResult
  pub parsed : env.unmarshal_download response ≡ done result
  pub no_failure : result.failure_type ≡ []
  pub first : result.items ≡ a.item ∷ rest
  pub kept : a.response ≡ response
  pub described : Describes a.item.metadata a

get_app_info_complete :
    (env : Env) (response : Bytes) (a : AppInfo)
    → IsAnswer env response a
    → get_app_info env response ≡ ok a
unfolding get_app_info check_result first_item get_download_item_result text_is_empty as_string
    as_uint64 as_slice
get_app_info_complete env response a h =
    ground (arith, version_ids-id_values a.software_version_external_identifiers)

assemble-eq-ok :
    (item : DownloadItemResult) (response : Bytes) (ids : List ℕ) (v1 v2 v3 v4 v5 : Option Value)
    (a : AppInfo)
    → assemble item response ids v1 v2 v3 v4 v5 ≡ ok a
    → (a.item ≡ item)
      × (a.response ≡ response)
      × (a.software_version_external_identifiers ≡ ids)
      × (v1 ≡ some (text a.bundle_display_name))
      × (v2 ≡ some (text a.bundle_short_version_string))
      × (v3 ≡ some (uint64 a.software_version_external_identifier))
      × (v4 ≡ some (text a.item_name))
      × (v5 ≡ some (text a.artist_name))
unfolding assemble
assemble-eq-ok item response ids v1 v2 v3 v4 v5 a h = ground arith

as_slice-eq-ok : (v : Option Value) (vs : Values) → as_slice v ≡ ok vs → v ≡ some (slice vs)
unfolding as_slice
as_slice-eq-ok v vs h = ground arith

abbrev pub tail_of : List DownloadItemResult → List DownloadItemResult
tail_of [] = []
tail_of (i ∷ is) = is

pub check_result-eq-ok :
    (r : DownloadResult) (item : DownloadItemResult)
    → check_result r ≡ ok item
    → (r.failure_type ≡ []) × (r.items ≡ item ∷ tail_of r.items)
unfolding check_result
check_result-eq-ok r item h = ground arith

get_app_info_sound :
    (env : Env) (response : Bytes) (a : AppInfo)
    → get_app_info env response ≡ ok a
    → IsAnswer env response a
unfolding get_app_info
get_app_info_sound env response a h =
    let (item, e, h1) = >>=-eq-ok (get_download_item_result env response) _ h in
    let (result, parsed, checked) = >>=-eq-ok (outcome (env.unmarshal_download response)) _ e in
    let m = item.metadata in
    let (vs, e1, h2) =
      >>=-eq-ok (as_slice (get m (codes "softwareVersionExternalIdentifiers"))) _ h1 in
    let (ids, e2, h3) = >>=-eq-ok (version_ids vs) _ h2 in
    let read = assemble-eq-ok item response ids _ _ _ _ _ a h3 in
    let listed = as_slice-eq-ok _ vs e1 in
    let same = id_values-version_ids vs ids e2 in
    let (fine, first) = check_result-eq-ok result item checked in
    record {
      result = result;
      rest = tail_of result.items;
      parsed = ground arith;
      no_failure = fine;
      first = rw read.0 first;
      kept = read.1;
      described = rw read.0 (record {
        ids = rw (listed, same, read.2) refl;
        display_name = read.3;
        short_version = read.4;
        id = read.5;
        item_name = read.6;
        artist_name = read.7;
      });
    }

-- `GetAppInfo` yields an app exactly when the bytes are a store answer with no failure type whose
-- first item has all six metadata entries at their expected types, and the app is what they say.
pub get_app_info_iff :
    (env : Env) (response : Bytes) (a : AppInfo)
    → (get_app_info env response ≡ ok a) ↔ IsAnswer env response a
get_app_info_iff env response a =
    (get_app_info_sound env response a, get_app_info_complete env response a)

version_ids-ne-err : (vs : Values) (e : Text) → version_ids vs ≢ err e
unfolding version_ids
version_ids-ne-err nil e h = cc
version_ids-ne-err (cons v vs) e h = ground (arith, version_ids-ne-err vs e)

as_slice-ne-err : (v : Option Value) (e : Text) → as_slice v ≢ err e
unfolding as_slice
as_slice-ne-err v e h = ground arith

assemble-ne-err :
    (item : DownloadItemResult) (response : Bytes) (ids : List ℕ) (v1 v2 v3 v4 v5 : Option Value)
    (e : Text)
    → assemble item response ids v1 v2 v3 v4 v5 ≢ err e
unfolding assemble
assemble-ne-err item response ids v1 v2 v3 v4 v5 e h = ground arith

app_of-ne-err :
    (response : Bytes) (item : DownloadItemResult) (e : Text) → app_of response item ≢ err e
unfolding app_of
app_of-ne-err response item e =
    let m = item.metadata in
    >>=-ne-err (as_slice (get m (codes "softwareVersionExternalIdentifiers"))) _ e
      (as_slice-ne-err (get m (codes "softwareVersionExternalIdentifiers")))
      λ vs. >>=-ne-err (version_ids vs) _ e (version_ids-ne-err vs) λ ids.
        assemble-ne-err item response ids (get m (codes "bundleDisplayName"))
          (get m (codes "bundleShortVersionString"))
          (get m (codes "softwareVersionExternalIdentifier")) (get m (codes "itemName"))
          (get m (codes "artistName")) e

-- `GetAppInfo` returns an error exactly when `GetDownloadItemResult` does, and the same one: metadata
-- that is not as expected never comes back as an error.
pub get_app_info-err_iff :
    (env : Env) (response : Bytes) (e : Text)
    → (get_app_info env response ≡ err e) ↔ (get_download_item_result env response ≡ err e)
unfolding get_app_info
get_app_info-err_iff env response e = elim (Outcome-cases (get_download_item_result env response)) [
  | inl (item, found) ↦ ground (arith, app_of-ne-err response item e)
  | inr (inl (d, found)) ↦ ground arith
  | inr (inr (p, found)) ↦ ground arith
]

-- The app is what its own data is read as.
abbrev pub IsRead : Env → AppInfo → Type 0
IsRead env a = get_app_info env a.response ≡ ok a

pub get_app_info-IsRead :
    (env : Env) (response : Bytes) (a : AppInfo) → get_app_info env response ≡ ok a → IsRead env a
get_app_info-IsRead env response a h =
    ap (get_app_info env) ((get_app_info_iff env response a).0 h).kept ∙ h
