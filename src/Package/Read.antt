-- ===== src/Package/Read.antt =====
-- What `ReplicateSinf` reads from the package: `readInfoPlist`, `readManifestPlist` and
-- `readBundleName`.
use ipaversion.Base.{Option, none, some, List, [], ◌∷◌, ◌&&◌, not, Bool, if◌then◌else◌}
use ipaversion.Base.Text.{
  Text, Bytes, codes, contains, has_suffix, trim_suffix, base_name, text_is_empty,
}
use ipaversion.Outcome.{Outcome, ok, err, Result, outcome, wrap_message}
use ipaversion.Plist.{PackageInfo, PackageManifest}
use ipaversion.World.{Env, Action, ◌>>=◌, ◌>>◌, pure, lift, on_error, Entry, system_call}

abbrev pub info_suffix : Text
info_suffix = codes ".app/Info.plist"

abbrev pub manifest_suffix : Text
manifest_suffix = codes ".app/SC_Info/Manifest.plist"

abbrev pub watch_part : Text
watch_part = codes "/Watch/"

-- The first file that a loop over `reader.File` stops at.
unfoldable pub first_entry : (Text → Bool) → List Entry → Option Entry
first_entry test [] = none
first_entry test (e ∷ es) = if test e.name then some e else first_entry test es

-- The body of both loops at the file that matches.
unfoldable pub read_plist : {A : Type 0} → (Bytes → Result A) → Option Entry → Action (Option A)
unfolding system_call
read_plist unmarshal none = pure none
read_plist unmarshal (some e) = do
  on_error (wrap_message (codes "failed to open file: ")) system_call
  on_error (wrap_message (codes "failed to copy data: ")) system_call
  a ←
      on_error (wrap_message (codes "failed to unmarshal data: "))
        (lift (outcome (unmarshal e.content)))
  pure (some a)

abbrev pub is_info : Text → Bool
is_info name = contains name info_suffix

abbrev pub is_manifest : Text → Bool
is_manifest name = has_suffix name manifest_suffix

abbrev pub is_bundle_info : Text → Bool
is_bundle_info name = contains name info_suffix && not (contains name watch_part)

-- `readInfoPlist`; `none` is the nil pointer.
unfoldable pub read_info_plist : Env → List Entry → Action (Option PackageInfo)
unfolding first_entry read_plist
read_info_plist env es = read_plist env.unmarshal_info (first_entry is_info es)

-- `readManifestPlist`
unfoldable pub read_manifest_plist : Env → List Entry → Action (Option PackageManifest)
unfolding first_entry read_plist
read_manifest_plist env es = read_plist env.unmarshal_manifest (first_entry is_manifest es)

bundle_name_of : Option Entry → Text
bundle_name_of none = []
bundle_name_of (some e) = base_name (trim_suffix e.name info_suffix)

-- `readBundleName`
unfoldable pub read_bundle_name : List Entry → Outcome Text
unfolding first_entry bundle_name_of text_is_empty
read_bundle_name es =
    let name = bundle_name_of (first_entry is_bundle_info es) in
    if text_is_empty name then err (codes "could not read bundle name") else ok name
