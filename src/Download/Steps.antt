-- ===== src/Download/Steps.antt =====
-- ipaversionlib/app.go: `DownloadApp`.
use ipaversion.Base.{Bool, true, false, ◌++◌, [], ◌∷◌, if◌then◌else◌}
use ipaversion.Base.Text.{Text, codes}
use ipaversion.App.{AppInfo}
use ipaversion.World.{Env, Action, ◌>>=◌, ◌>>◌, pure, on_error, remove}
use ipaversion.Package.{apply_patches, replicate_sinf}
use ipaversion.Download.Fetch.{file_exists, download_file}

-- `fmt.Errorf(message + "%v\n", err)`
abbrev pub wrap_line : Text → Text → Text
wrap_line message e = message ++ (e ++ (0xa ∷ []))

abbrev pub ipa_name : AppInfo → Text
ipa_name app =
    app.bundle_display_name ++ (codes " " ++ (app.bundle_short_version_string ++ codes ".ipa"))

abbrev pub downloading_name : Text → Text
downloading_name filename = filename ++ codes ".downloading"

-- `DownloadApp` once the file is to be written.
unfoldable pub fetch_and_patch : Env → AppInfo → Text → Text → Action (Unit {0})
fetch_and_patch env app user_agent filename = do
  let tmp = downloading_name filename
  download_file env app.item.url tmp user_agent
  on_error (wrap_line (codes "Failed to apply patches: "))
      (apply_patches env app.item.metadata tmp filename)
  on_error (wrap_line (codes "Failed to replicate sinfs: "))
      (replicate_sinf env app.item.sinfs filename)
  on_error (wrap_line (codes "Failed to remove tmp file: ")) (remove tmp)

-- `DownloadApp` returns the file's name and whether it was there and was kept.
unfoldable pub download_app : Env → AppInfo → Text → Bool → Action (Text × Bool)
unfolding fetch_and_patch file_exists
download_app env app user_agent overwrite = do
  let filename = ipa_name app
  exists ← if overwrite then pure false else file_exists filename
  if exists
      then pure (filename, true)
      else (fetch_and_patch env app user_agent filename >> pure (filename, false))
