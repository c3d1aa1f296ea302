-- ===== src/Download/Refused.antt =====
-- What `DownloadApp` leaves when the server refuses the download.
use ipaversion.Base.{
  ℕ, ◌+◌, ◌≡◌, ◌≢◌, ◌==◌, ◌⊎◌, inl, inr, true, false, Bool, Option, none, some, List, [], ◌∷◌, ◌++◌,
  arith,
}
use ipaversion.Base.Int.{ℤ}
use ipaversion.Base.Text.{Text, codes, atoi}
use ipaversion.Outcome.{err, done}
use ipaversion.App.{AppInfo}
use ipaversion.World.{Env, Request, Response, Entry, plain, Files, update}
use ipaversion.World.Quiet.{quiet, create-quiet}
use ipaversion.Download.Fetch.{download_file, status_is_ok}
use ipaversion.Download.Steps.{ipa_name, downloading_name, fetch_and_patch, download_app}
use ipaversion.Download.Complete.{download_request}

-- The server answers with a length and another status than 200.
record Refuses (env : Env) (n : ℕ) (url user_agent : Text) (response : Response) : Type 0 where
  pub total : ℤ
  pub valid : env.request_is_valid (codes "GET") url ≡ true
  pub answered : env.server n (download_request url user_agent) ≡ done response
  pub sized : atoi response.content_length ≡ some total
  pub not_ok : response.status_code ≢ 200

module _ (fs : Files) (ws : Text → Option (List Entry)) (n : ℕ) (rs : List Request) (env : Env)
    (response : Response) where
  download_file_refused :
      (url path user_agent : Text)
      → Refuses env n url user_agent response
      → download_file env url path user_agent (quiet fs ws n rs) ≡ (
        err (codes "bad status: " ++ response.status),
        quiet
            (update fs path (some (plain [])))
            ws
            (n + 1)
            (rs ++ (download_request url user_agent ∷ [])),
      )
  unfolding download_file status_is_ok
  download_file_refused url path user_agent r =
      let other : (response.status_code == 200) ≡ false = ground (arith, r.not_ok) in
      rw (create-quiet fs ws n rs path, r.valid, r.answered, r.sized, other)

  -- If no system call fails and the server answers with a length and another status than 200,
  -- `DownloadApp` with `overwrite`, or for a file that is not there, returns that status as its
  -- error. One request is sent, an empty temporary file is left, and no other file changes.
  download_app_refused :
      (app : AppInfo) (user_agent : Text) (overwrite : Bool)
      → (overwrite ≡ true) ⊎ (fs (ipa_name app) ≡ none)
      → Refuses env n app.item.url user_agent response
      → download_app env app user_agent overwrite (quiet fs ws n rs) ≡ (
        err (codes "bad status: " ++ response.status),
        quiet
            (update fs (downloading_name (ipa_name app)) (some (plain [])))
            ws
            (n + 1)
            (rs ++ (download_request app.item.url user_agent ∷ [])),
      )
  unfolding download_app fetch_and_patch
  download_app_refused app user_agent overwrite (inl h) r =
      rw (h, download_file_refused app.item.url (downloading_name (ipa_name app)) user_agent r)
  download_app_refused app user_agent true (inr h) r =
      rw (download_file_refused app.item.url (downloading_name (ipa_name app)) user_agent r)
  download_app_refused app user_agent false (inr h) r =
      rw (h, download_file_refused app.item.url (downloading_name (ipa_name app)) user_agent r)
