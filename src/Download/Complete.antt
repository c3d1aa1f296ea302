-- ===== src/Download/Complete.antt =====
-- A download in which no system call fails, from the request to the finished package.
use mathlib.Core.Path.{fun_ext}
use ipaversion.Base.{
  ℕ, ◌+◌, ◌≡◌, ◌∙◌, ◌⊎◌, inl, inr, Bool, true, false, Option, none, some, List, [], ◌∷◌, ◌++◌,
  arith,
}
use ipaversion.Base.Int.{ℤ}
use ipaversion.Base.Text.{Text, Bytes, codes, atoi, text_eq}
use ipaversion.Outcome.{ok, done}
use ipaversion.App.{AppInfo}
use ipaversion.World.{
  Env, Request, Response, Entry, Content, plain, archive, Files, update, update_self, update_ne,
  text_eq-append, text_eq-append_ne,
}
use ipaversion.World.Quiet.{quiet, update-update, create-quiet, remove-quiet, write_file-quiet}
use ipaversion.Package.{tmp_path}
use ipaversion.Package.Quiet.{metadata_entry, apply_patches-quiet}
use ipaversion.Package.Seal.{Needs, replicate_sinf-quiet}
use ipaversion.Download.Fetch.{or_default, user_agent_key, download_file}
use ipaversion.Download.Steps.{ipa_name, downloading_name, fetch_and_patch, download_app}

-- The one request of a download.
abbrev pub download_request : Text → Text → Request
download_request url user_agent = record {
  method = codes "GET";
  url = url;
  header = (user_agent_key, or_default user_agent ∷ []) ∷ [];
  body = [];
}

-- The server sends the archive `es`, and its length.
pub record Serves (env : Env) (n : ℕ) (url user_agent : Text) (es : List Entry) : Type 0 where
  pub response : Response
  pub total : ℤ
  pub valid : env.request_is_valid (codes "GET") url ≡ true
  pub answered : env.server n (download_request url user_agent) ≡ done response
  pub sized : atoi response.content_length ≡ some total
  pub status_ok : response.status_code ≡ 200
  pub sent_archive : response.body ≡ archive es

module _ (fs : Files) (ws : Text → Option (List Entry)) (n : ℕ) (rs : List Request)
    (env : Env) where
  pub download_file-quiet :
      (url path user_agent : Text) (es : List Entry)
      → Serves env n url user_agent es
      → download_file env url path user_agent (quiet fs ws n rs) ≡ (
        ok tt,
        quiet
            (update fs path (some (archive es)))
            ws
            (n + 1)
            (rs ++ (download_request url user_agent ∷ [])),
      )
  unfolding download_file
  download_file-quiet url path user_agent es s =
      rw (create-quiet fs ws n rs path, s.valid, s.answered, s.sized, s.status_ok, s.sent_archive)
        (rw
          (write_file-quiet (update fs path (some (plain []))) ws (n + 1)
            (rs ++ (download_request url user_agent ∷ [])) path (archive es))
          (rw update-update))

tmp_path-ne-downloading_name :
    (name : Text) → text_eq (tmp_path name) (downloading_name name) ≡ false
unfolding text_eq
tmp_path-ne-downloading_name name = text_eq-append name (codes ".tmp") (codes ".downloading")

files_downloaded :
    (fs : Files) (name tmp sealing : Text) (a b c : Content)
    → update
        (update (update (update (update fs tmp (some a)) name (some b)) sealing none) name (some c))
        tmp
        none
      ≡ update (update (update fs sealing none) name (some c)) tmp none
files_downloaded fs name tmp sealing a b c = fun_ext λ q. ground arith

-- The world after a download: the package under its name, no temporary file, and all else as before.
abbrev pub downloaded : Files → Text → List Entry → Files
downloaded fs name es =
    update (update (update fs (tmp_path name) none) name (some (archive es)))
      (downloading_name name) none

module _ (fs : Files) (ws : Text → Option (List Entry)) (n : ℕ) (rs : List Request)
    (env : Env) where
  pub fetch_and_patch-quiet :
      (app : AppInfo) (user_agent name : Text) (es extra : List Entry) (bytes : Bytes)
      → Serves env n app.item.url user_agent es
      → env.marshal_indent app.item.metadata ≡ done bytes
      → Needs env app.item.sinfs (es ++ (metadata_entry bytes ∷ [])) extra
      → fetch_and_patch env app user_agent name (quiet fs ws n rs) ≡ (
        ok tt,
        quiet
            (downloaded fs name ((es ++ (metadata_entry bytes ∷ [])) ++ extra))
            (update (update ws name none) (tmp_path name) none)
            (n + 1)
            (rs ++ (download_request app.item.url user_agent ∷ [])),
      )
  unfolding fetch_and_patch
  fetch_and_patch-quiet app user_agent name es extra bytes serves marshals needs =
      let tmp = downloading_name name in
      let seal = tmp_path name in
      let all = es ++ (metadata_entry bytes ∷ []) in
      let n1 = n + 1 in
      let rs1 = rs ++ (download_request app.item.url user_agent ∷ []) in
      let fs1 : Files = update fs tmp (some (archive es)) in
      let fs2 : Files = update fs1 name (some (archive all)) in
      let fs3 : Files = update (update fs2 seal none) name (some (archive (all ++ extra))) in
      let ws2 : Text → Option (List Entry) = update ws name none in
      let at_tmp : fs3 tmp ≡ some (archive es) =
        update_ne (update fs2 seal none) name tmp _ (text_eq-append_ne name _ _)
        ∙ update_ne fs2 seal tmp none (tmp_path-ne-downloading_name name)
        ∙ update_ne fs1 name tmp _ (text_eq-append_ne name _ _)
        ∙ update_self fs tmp _ in
      rw (download_file-quiet fs ws n rs env app.item.url tmp user_agent es serves) (
        rw
          (apply_patches-quiet fs1 n1 rs1 env app.item.metadata bytes tmp name ws es
            (update_self fs tmp _) marshals)
          (rw
            (replicate_sinf-quiet fs2 n1 rs1 name env app.item.sinfs ws2 all extra
              (update_self fs1 name _) needs)
            (rw (remove-quiet fs3 (update ws2 seal none) n1 rs1 tmp (archive es) at_tmp)
              (rw (files_downloaded fs name tmp seal)))))

  -- If no system call fails, the server sends an archive with its length and status 200, the
  -- metadata can be written as a plist and the package says where the sinfs go, `DownloadApp` with
  -- `overwrite`, or for a file that is not there, reports a new file: it holds the archive, the
  -- metadata file and the sinfs in this order. One request is sent, both temporary files are gone,
  -- and no other file changes.
  pub download_app_complete :
      (app : AppInfo) (user_agent : Text) (overwrite : Bool) (es extra : List Entry) (bytes : Bytes)
      → (overwrite ≡ true) ⊎ (fs (ipa_name app) ≡ none)
      → Serves env n app.item.url user_agent es
      → env.marshal_indent app.item.metadata ≡ done bytes
      → Needs env app.item.sinfs (es ++ (metadata_entry bytes ∷ [])) extra
      → download_app env app user_agent overwrite (quiet fs ws n rs) ≡ (
        ok (ipa_name app, false),
        quiet
            (downloaded fs (ipa_name app) ((es ++ (metadata_entry bytes ∷ [])) ++ extra))
            (update (update ws (ipa_name app) none) (tmp_path (ipa_name app)) none)
            (n + 1)
            (rs ++ (download_request app.item.url user_agent ∷ [])),
      )
  unfolding download_app
  download_app_complete app user_agent overwrite es extra bytes (inl h) serves marshals needs =
      rw h (
        rw (
          fetch_and_patch-quiet app user_agent (ipa_name app) es extra bytes serves marshals needs))
  download_app_complete app user_agent true es extra bytes (inr h) serves marshals needs =
      rw (fetch_and_patch-quiet app user_agent (ipa_name app) es extra bytes serves marshals needs)
  download_app_complete app user_agent false es extra bytes (inr h) serves marshals needs = rw h (
      rw (fetch_and_patch-quiet app user_agent (ipa_name app) es extra bytes serves marshals needs))

  -- If no system call fails, `DownloadApp` without `overwrite` keeps a file of the package's name
  -- as it is, whatever it holds: nothing is sent and nothing is written.
  pub download_app_kept :
      (app : AppInfo) (user_agent : Text) (c : Content)
      → fs (ipa_name app) ≡ some c
      → download_app env app user_agent false (quiet fs ws n rs)
        ≡ (ok (ipa_name app, true), quiet fs ws n rs)
  unfolding download_app
  download_app_kept app user_agent c h = rw h
