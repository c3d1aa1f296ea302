-- ===== src/Download/Packaged.antt =====
-- What a download that returns no error has left, whatever failed on the way and was dropped.
use ipaversion.Base.{
  ℕ, ◌≡◌, ◌⊎◌, inl, inr, refl, ◌∙◌, sym, ap, Bool, true, false, none, some, List, [], ◌∷◌, ◌++◌,
  arith,
}
use ipaversion.Base.Text.{Text, Bytes, codes, text_eq}
use ipaversion.Outcome.{done}
use ipaversion.App.{AppInfo}
use ipaversion.World.{
  Env, World, Entry, Content, archive, unfinished, on_error, remove, pure, ◌>>◌, system_call,
  text_eq-append, text_eq-append_ne_left,
}
use ipaversion.World.Frame.{remove-Keeps}
use ipaversion.World.Yields.{
  Yields, Yields-map, Yields_world, after-Yields, step-Yields, with_message-Yields, remove-Yields,
}
use ipaversion.Package.{apply_patches, replicate_sinf, tmp_path}
use ipaversion.Package.Quiet.{metadata_entry}
use ipaversion.Package.Atomic.{IsGrown}
use ipaversion.Package.Patched.{IsPatched, IsSealed, apply_patches-Yields, replicate_sinf-Yields}
use ipaversion.Download.Fetch.{file_exists, download_file}
use ipaversion.Download.Steps.{wrap_line, ipa_name, downloading_name, fetch_and_patch, download_app}
use ipaversion.Download.Fetched.{HasServed, IsFetched, download_file-Yields}

downloading_name-ne-tmp_path :
    (name : Text) → text_eq (downloading_name name) (tmp_path name) ≡ false
unfolding text_eq
downloading_name-ne-tmp_path name = text_eq-append name (codes ".downloading") (codes ".tmp")

module _ (env : Env) (n : ℕ) where
  module _ (app : AppInfo) (user_agent : Text) where
    -- The server has sent an archive, the package has its files, the metadata and more behind them,
    -- and neither temporary file is there.
    pub record IsPackaged (w : World) : Type 0 where
      pub entries : List Entry
      pub served : HasServed env n app.item.url user_agent (archive entries)
      pub bytes : Bytes
      pub marshals : env.marshal_indent app.item.metadata ≡ done bytes
      pub content : Content
      pub grown : IsGrown (entries ++ (metadata_entry bytes ∷ [])) content
      pub here : w.files (ipa_name app) ≡ some content
      pub no_download : w.files (downloading_name (ipa_name app)) ≡ none
      pub no_tmp : w.files (tmp_path (ipa_name app)) ≡ none

    abbrev name : Text
    name = ipa_name app

    abbrev tmp : Text
    tmp = downloading_name name

    -- The two last steps, on a destination that is patched.
    sealed :
        (es : List Entry) (bytes : Bytes) (w : World)
        → HasServed env n app.item.url user_agent (archive es)
        → env.marshal_indent app.item.metadata ≡ done bytes
        → let all = es ++ (metadata_entry bytes ∷ []) in
          ((w.files name ≡ some (archive all)) ⊎ (w.files name ≡ some (unfinished all)))
          → Yields
              (λ (_ : Unit {0}). IsPackaged)
              ((on_error
                    (wrap_line (codes "Failed to replicate sinfs: "))
                    (replicate_sinf env app.item.sinfs name)
                  >> on_error (wrap_line (codes "Failed to remove tmp file: ")) (remove tmp))
                w)
    sealed es bytes w served marshals at =
        let all = es ++ (metadata_entry bytes ∷ []) in
        step-Yields (λ _. IsSealed env app.item.sinfs name all) (λ _. IsPackaged) _
          (replicate_sinf env app.item.sinfs name w) _
          (replicate_sinf-Yields env app.item.sinfs name all w at)
          λ _ v (new, grown, here, gone).
            with_message-Yields (λ _. IsPackaged) _ (remove tmp v)
              (Yields-map (λ _ u. (u.files tmp ≡ none) × ((remove tmp v).1 ≡ u)) (λ _. IsPackaged)
                (λ _ u (left, end'). record {
                  entries = es;
                  served = served;
                  bytes = bytes;
                  marshals = marshals;
                  content = new;
                  grown = grown;
                  here =
                      ap (λ (x : World). x.files name) (sym end')
                      ∙ remove-Keeps name tmp (text_eq-append_ne_left name _ _) v
                      ∙ here;
                  no_download = left;
                  no_tmp =
                      ap (λ (x : World). x.files (tmp_path name)) (sym end')
                      ∙ remove-Keeps (tmp_path name) tmp (downloading_name-ne-tmp_path name) v
                      ∙ gone;
                })
                (remove tmp v)
                (Yields_world (λ _ u. u.files tmp ≡ none) (remove tmp v) (remove-Yields tmp v)))

    fetch_and_patch-Yields :
        (w : World)
        → w.calls ≡ n
        → Yields (λ _. IsPackaged) (fetch_and_patch env app user_agent name w)
    unfolding fetch_and_patch
    fetch_and_patch-Yields w at =
        after-Yields (λ _. IsFetched env n app.item.url tmp user_agent) (λ _. IsPackaged)
          (download_file env app.item.url tmp user_agent w) _
          (download_file-Yields env n app.item.url tmp user_agent w at)
          λ _ v (c, (resp, answered, status, body), there).
            step-Yields (λ _. IsPatched env app.item.metadata name c) (λ _. IsPackaged) _
              (apply_patches env app.item.metadata tmp name v) _
              (apply_patches-Yields env app.item.metadata name tmp c v there)
              λ _ u (es, bytes, archived, marshals, written).
                sealed es bytes u (resp, answered, status, body ∙ archived) marshals written

    -- The package is ready, and was not kept from before.
    abbrev pub IsDownloaded : Text × Bool → World → Type 0
    IsDownloaded (filename, kept) w = (filename ≡ ipa_name app) × (kept ≡ false) × IsPackaged w

    fetched :
        (w : World)
        → w.calls ≡ n
        → Yields IsDownloaded ((fetch_and_patch env app user_agent name >> pure (name, false)) w)
    fetched w at =
        after-Yields (λ _. IsPackaged) IsDownloaded (fetch_and_patch env app user_agent name w) _
          (fetch_and_patch-Yields w at) λ _ v h. (refl, refl, h)

    file_exists-Yields :
        (w : World)
        → w.calls ≡ n
        → w.files name ≡ none
        → Yields (λ b v. (b ≡ false) × (v.calls ≡ n)) (file_exists name w)
    unfolding file_exists system_call
    file_exists-Yields w at missing = ground arith

    -- Whatever fails, a download that is not of a file that is there and returns no error has asked
    -- the server, which answered 200 with an archive; the package has this archive's files, the
    -- marshalled metadata and more behind them, as an archive or as what a writer left whose close
    -- failed; and both temporary files are gone.
    pub download_app-Yields :
        (overwrite : Bool) (w : World)
        → w.calls ≡ n
        → (overwrite ≡ true) ⊎ (w.files (ipa_name app) ≡ none)
        → Yields IsDownloaded (download_app env app user_agent overwrite w)
    unfolding download_app
    download_app-Yields true w at h = fetched w at
    download_app-Yields false w at (inl h) = absurd cc
    download_app-Yields false w at (inr missing) =
        after-Yields (λ b v. (b ≡ false) × (v.calls ≡ n)) IsDownloaded (file_exists name w) _
          (file_exists-Yields w at missing) λ b v (absent, at'). rw absent (fetched v at')
