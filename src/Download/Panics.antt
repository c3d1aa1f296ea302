-- ===== src/Download/Panics.antt =====
-- With what `DownloadApp` may panic, whatever the system calls and the server do.
use ipaversion.Base.{true, [], arith, inl, inr}
use ipaversion.Base.Text.{Text, codes, atoi}
use ipaversion.Outcome.{Result-cases}
use ipaversion.Plist.{Metadata}
use ipaversion.App.{AppInfo}
use ipaversion.Http.{new_request, do_request}
use ipaversion.World.{
  Env, World, Request, create, remove, open_reader, create_raw, create_entry, write_entry,
  close_writer, new_writer, lift,
}
use ipaversion.World.Ends.{
  Ends, Anything, after-Ends, with_message-Ends, cleaned-Ends, step-Ends, create-Ends, remove-Ends,
  open_reader-Ends, create_raw-Ends, write_entry-Ends, write_file-Ends,
}
use ipaversion.Package.{
  replicate_zip, write_metadata, copy_and_patch, apply_patches, replicate_sinf,
}
use ipaversion.Package.Safe.{NoSinfs, replicate_zip-Ends, replicate_sinf-Ends}
use ipaversion.Download.Fetch.{parsed_length, status_is_ok, download_file}
use ipaversion.Download.Steps.{ipa_name, downloading_name, fetch_and_patch, download_app}

module _ (P : Text → Type 0) (env : Env) where
  new_request-Ends :
      (url : Text) (w : World) → Ends Anything P (lift (new_request env (codes "GET") url []) w)
  unfolding new_request
  new_request-Ends url w = ground arith

  do_request-Ends : (req : Request) (w : World) → Ends Anything P (do_request env req w)
  unfolding do_request
  do_request-Ends req w = ground arith

  download_file-Ends :
      (url path user_agent : Text) (w : World)
      → Ends Anything P (download_file env url path user_agent w)
  unfolding download_file status_is_ok
  download_file-Ends url path user_agent w =
      after-Ends P Anything Anything (create path w) _ (create-Ends P path w) λ _ w1 _.
        after-Ends P Anything Anything (lift (new_request env (codes "GET") url []) w1) _
          (new_request-Ends url w1)
          λ req w2 _.
            after-Ends P Anything Anything (do_request env _ w2) _ (do_request-Ends _ w2)
              λ resp w3 _.
                after-Ends P Anything Anything (lift (parsed_length (atoi resp.content_length)) w3)
                  _ (ground arith)
                  λ total w4 _.
                    after-Ends P Anything Anything (lift (status_is_ok resp) w4) _ (ground arith)
                      λ _ w5 _. write_file-Ends P path resp.body w5

  write_metadata-Ends :
      (m : Metadata) (p : Text) (w : World) → Ends Anything P (write_metadata env m p w)
  unfolding write_metadata create_entry
  write_metadata-Ends m p w =
      step-Ends P Anything Anything _ (create_raw p _ 0 w) _ (create_raw-Ends P p _ 0 w) λ _ w1 _.
        elim (Result-cases (env.marshal_indent m)) [
          | inl (bytes, h) ↦ rw h (
              with_message-Ends P Anything _ (write_entry p bytes w1)
                (write_entry-Ends P p bytes w1))
          | inr (e, h) ↦ rw h tt
        ]

  apply_patches-Ends :
      (m : Metadata) (src dst : Text) (w : World) → Ends Anything P (apply_patches env m src dst w)
  unfolding apply_patches copy_and_patch new_writer
  apply_patches-Ends m src dst w =
      step-Ends P Anything Anything _ (open_reader src w) _ (open_reader-Ends P src w) λ es w1 _.
        step-Ends P Anything Anything _ (create dst w1) _ (create-Ends P dst w1) λ _ w2 _.
          cleaned-Ends P Anything (close_writer dst) _ (
            step-Ends P Anything Anything _ (replicate_zip es dst _) _
              (replicate_zip-Ends P es dst _)
              λ _ w3 _.
                with_message-Ends P Anything _ (write_metadata env m dst w3)
                  (write_metadata-Ends m dst w3))

module _ (env : Env) (app : AppInfo) (user_agent : Text) where
  abbrev P : Text → Type 0
  P = NoSinfs app.item.sinfs

  fetch_and_patch-Ends :
      (name : Text) (w : World) → Ends Anything P (fetch_and_patch env app user_agent name w)
  unfolding fetch_and_patch
  fetch_and_patch-Ends name w =
      let tmp = downloading_name name in
      after-Ends P Anything Anything (download_file env app.item.url tmp user_agent w) _
        (download_file-Ends P env app.item.url tmp user_agent w)
        λ _ w1 _.
          step-Ends P Anything Anything _ (apply_patches env app.item.metadata tmp name w1) _
            (apply_patches-Ends P env app.item.metadata tmp name w1)
            λ _ w2 _.
              step-Ends P Anything Anything _ (replicate_sinf env app.item.sinfs name w2) _
                (replicate_sinf-Ends env app.item.sinfs name w2)
                λ _ w3 _. with_message-Ends P Anything _ (remove tmp w3) (remove-Ends P tmp w3)

  -- A download panics only where the version has no sinfs, and then by indexing them.
  pub download_app-Ends : (w : World) → Ends Anything P (download_app env app user_agent true w)
  unfolding download_app
  download_app-Ends w =
      after-Ends P Anything Anything (fetch_and_patch env app user_agent (ipa_name app) w) _
        (fetch_and_patch-Ends (ipa_name app) w) λ _ w1 _. tt
