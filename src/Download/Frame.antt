-- ===== src/Download/Frame.antt =====
-- The files that `DownloadApp` leaves alone, whatever fails.
use ipaversion.Base.{◌≡◌, refl, Bool, true, false, if◌then◌else◌, []}
use ipaversion.Base.Text.{Text, text_eq, codes, atoi}
use ipaversion.App.{AppInfo}
use ipaversion.World.{Env, World, Action, create, remove, lift, pure, system_call, ◌>>◌}
use ipaversion.World.Frame.{
  Keeps, >>=-Keeps, on_error-Keeps, step-Keeps, system_call-Keeps, create-Keeps, remove-Keeps,
  write_file-Keeps,
}
use ipaversion.Http.{new_request, do_request}
use ipaversion.Package.{apply_patches, replicate_sinf, tmp_path}
use ipaversion.Package.Frame.{apply_patches-Keeps, replicate_sinf-Keeps}
use ipaversion.Download.Fetch.{parsed_length, status_is_ok, file_exists, download_file}
use ipaversion.Download.Steps.{ipa_name, downloading_name, fetch_and_patch, download_app}

module _ (p : Text) where
  download_file-Keeps :
      (env : Env) (url path user_agent : Text)
      → text_eq path p ≡ false
      → Keeps p (download_file env url path user_agent)
  unfolding download_file do_request
  download_file-Keeps env url path user_agent other =
      >>=-Keeps p (create path) _ (create-Keeps p path other) λ _.
        >>=-Keeps p (lift (new_request env (codes "GET") url [])) _ (λ w. refl)
          λ req.
            >>=-Keeps p (do_request env _) _ (λ w. refl)
              λ resp.
                >>=-Keeps p (lift (parsed_length (atoi resp.content_length))) _ (λ w. refl)
                  λ total.
                    >>=-Keeps p (lift (status_is_ok resp)) _ (λ w. refl)
                      λ _. write_file-Keeps p path other resp.body

  fetch_and_patch-Keeps :
      (env : Env) (app : AppInfo) (user_agent name : Text)
      → text_eq name p ≡ false
      → text_eq (tmp_path name) p ≡ false
      → text_eq (downloading_name name) p ≡ false
      → Keeps p (fetch_and_patch env app user_agent name)
  unfolding fetch_and_patch
  fetch_and_patch-Keeps env app user_agent name h1 h2 h3 =
      let tmp = downloading_name name in
      >>=-Keeps p (download_file env app.item.url tmp user_agent) _
        (download_file-Keeps env app.item.url tmp user_agent h3)
        λ _.
          step-Keeps p _ (apply_patches env app.item.metadata tmp name) _
            (apply_patches-Keeps p env app.item.metadata tmp name h1)
            λ _.
              step-Keeps p _ (replicate_sinf env app.item.sinfs name) _
                (replicate_sinf-Keeps p name h1 h2 env app.item.sinfs)
                λ _. on_error-Keeps p _ (remove tmp) (remove-Keeps p tmp h3)

  module _ (env : Env) (app : AppInfo) (user_agent : Text) where
    abbrev fetched : Action (Text × Bool)
    fetched = fetch_and_patch env app user_agent (ipa_name app) >> pure (ipa_name app, false)

    fetched-Keeps :
        text_eq (ipa_name app) p ≡ false
        → text_eq (tmp_path (ipa_name app)) p ≡ false
        → text_eq (downloading_name (ipa_name app)) p ≡ false
        → Keeps p fetched
    fetched-Keeps h1 h2 h3 =
        >>=-Keeps p (fetch_and_patch env app user_agent (ipa_name app)) _
          (fetch_and_patch-Keeps env app user_agent (ipa_name app) h1 h2 h3) (λ _ w. refl)

    download_if_missing-Keeps :
        Keeps p fetched → (b : Bool) → Keeps p (if b then pure (ipa_name app, true) else fetched)
    download_if_missing-Keeps h true = λ w. refl
    download_if_missing-Keeps h false = h

    file_exists-Keeps : Keeps p (file_exists (ipa_name app))
    unfolding file_exists
    file_exists-Keeps = >>=-Keeps p system_call _ (system_call-Keeps p) λ _ w. refl

    -- Whatever fails, and however the call ends, `DownloadApp` touches no file but the package and
    -- its two temporary files.
    pub download_app-Keeps :
        (overwrite : Bool) (w : World)
        → text_eq (ipa_name app) p ≡ false
        → text_eq (tmp_path (ipa_name app)) p ≡ false
        → text_eq (downloading_name (ipa_name app)) p ≡ false
        → (download_app env app user_agent overwrite w).1.files p ≡ w.files p
    unfolding download_app
    download_app-Keeps true w h1 h2 h3 = fetched-Keeps h1 h2 h3 w
    download_app-Keeps false w h1 h2 h3 =
        >>=-Keeps p (file_exists (ipa_name app))
          (λ b. if b then pure (ipa_name app, true) else fetched) file_exists-Keeps
          (download_if_missing-Keeps (fetched-Keeps h1 h2 h3)) w
