-- ===== src/Trials.antt =====
-- test/ipatest/ipatest.go and test/plist-test/plist-test.go, which try the library out, and in Recover
-- the trial of recover, in Serving that of the proxy.
pub mod Recover
pub mod Serving
use ipaversion.Base.{arith, ◌≡◌, refl, Bool, false, List, [], ◌∷◌, ◌++◌}
use ipaversion.Base.Text.{Text, Bytes, codes, text_eq}
use ipaversion.Outcome.{Outcome, ok, err, panic, outcome, index_out_of_range}
use ipaversion.Plist.{DownloadItemResult}
use ipaversion.App.{get_app_info}
use ipaversion.World.{
  Env, World, Action, Content, ◌>>=◌, ◌>>◌, lift, on_error, system_call, file_at,
}
use ipaversion.World.Frame.{Keeps, >>=-Keeps, on_error-Keeps, step-Keeps, system_call-Keeps}
use ipaversion.Package.{apply_patches, replicate_sinf, tmp_path}
use ipaversion.Package.Frame.{apply_patches-Keeps, replicate_sinf-Keeps}
use ipaversion.Download.{download_app}

-- `data, _ := os.ReadFile(path)`: the data is nil where the call fails.
read_or_nil : (Content → Bytes) → Outcome Content × World → Outcome Bytes × World
read_or_nil raw (ok c, w) = (ok (raw c), w)
read_or_nil raw (err e, w) = (ok [], w)
read_or_nil raw (panic p, w) = (panic p, w)

read_file : (Content → Bytes) → Text → Action Bytes
unfolding read_or_nil system_call
read_file raw path w = read_or_nil raw ((system_call >> file_at path) w)

first_of : List DownloadItemResult → Outcome DownloadItemResult
first_of [] = panic index_out_of_range
first_of (item ∷ items) = ok item

abbrev pub trial_source : Text
trial_source = codes "Opera_3.src.ipa"

abbrev pub trial_package : Text
trial_package = codes "Opera_3.ipa"

-- `main` of test/ipatest; an error is what `log.Fatal` prints.
unfoldable pub ipa_trial : Env → (Content → Bytes) → Action (Unit {0})
unfolding read_file first_of
ipa_trial env raw = do
  saved ← read_file raw (codes "savedResponse/ReplayResponse3.xml")
  app_info ← lift (outcome (env.unmarshal_download saved))
  item ← lift (first_of app_info.items)
  on_error (λ e. codes "Failed to apply patches:" ++ e)
      (apply_patches env item.metadata trial_source trial_package)
  on_error (λ e. codes "Failed to replicate sinfs:" ++ e)
      (replicate_sinf env item.sinfs trial_package)

-- `main` of test/plist-test.
unfoldable pub plist_trial : Env → (Content → Bytes) → Action (Text × Bool)
unfolding read_file
plist_trial env raw = do
  saved ← read_file raw (codes "savedResponse/ReplayResponse1.xml")
  app_info ← lift (get_app_info env saved)
  download_app env app_info [] false

module _ (p : Text) where
  read_file-Keeps : (raw : Content → Bytes) (path : Text) → Keeps p (read_file raw path)
  unfolding read_file read_or_nil
  read_file-Keeps raw path w = ground (arith, system_call-Keeps p w)

  -- Whatever fails, the trial of the patches touches no file but its package and the temporary file
  -- of that.
  ipa_trial-Keeps :
      (env : Env) (raw : Content → Bytes) (w : World)
      → text_eq trial_package p ≡ false
      → text_eq (tmp_path trial_package) p ≡ false
      → (ipa_trial env raw w).1.files p ≡ w.files p
  unfolding ipa_trial
  ipa_trial-Keeps env raw w h1 h2 =
      >>=-Keeps p (read_file raw (codes "savedResponse/ReplayResponse3.xml")) _
        (read_file-Keeps raw (codes "savedResponse/ReplayResponse3.xml"))
        (λ saved.
          >>=-Keeps p (lift (outcome (env.unmarshal_download saved))) _ (λ v. refl)
            λ info.
              >>=-Keeps p (lift (first_of info.items)) _ (λ v. refl)
                λ item.
                  step-Keeps p _ (apply_patches env item.metadata trial_source trial_package) _
                    (apply_patches-Keeps p env item.metadata trial_source trial_package h1)
                    λ _.
                      on_error-Keeps p _ (replicate_sinf env item.sinfs trial_package)
                        (replicate_sinf-Keeps p trial_package h1 h2 env item.sinfs))
        w
