-- ===== src/Download/Fetch.antt =====
-- ipaversionlib/util.go: `fileExists`, `WriteCounter`, `DownloadFile`.
use ipaversion.Base.{
  ℕ, ◌+◌, Bool, true, false, ◌==◌, Option, none, some, [], ◌∷◌, ◌++◌, length, if◌then◌else◌,
}
use ipaversion.Base.Text.{spaces, Text, Bytes, codes, atoi, text_is_empty}
use ipaversion.Base.Int.{ℤ, pos, eqb_ℤ}
use ipaversion.Outcome.{Outcome, ok, err}
use ipaversion.Http.{new_request, do_request}
use ipaversion.World.{
  Env, Action, Response, Content, ◌>>=◌, ◌>>◌, pure, lift, system_call, create, write_file,
}

-- What the third branch of `fileExists` tells from an error that the file is missing.
abbrev is_there : Option Content → Bool
is_there none = false
is_there (some c) = true

-- `fileExists`
unfoldable pub file_exists : Text → Action Bool
unfolding system_call
file_exists filename = do system_call; λ w. pure (is_there (w.files filename)) w

pub record WriteCounter : Type 0 where
  pub total : ℤ
  pub count : ℕ

unfoldable pub new_write_counter : ℤ → WriteCounter
new_write_counter total = record { total = total; count = 0 }

-- What `PrintProgress` prints; `percent` is how `%.1f` prints the share that has arrived.
unfoldable pub print_progress : (ℕ → ℤ → Text) → WriteCounter → Text
unfolding spaces
print_progress percent wc =
    (0xd ∷ spaces 50)
    ++ ((0xd ∷ (codes "Progress: " ++ (percent wc.count wc.total ++ codes "%")))
        ++ (if eqb_ℤ (pos wc.count) wc.total then 0xa ∷ [] else []))

-- `WriteCounter.Write` returns the number of bytes that it was given.
unfoldable pub write : WriteCounter → Bytes → ℕ × WriteCounter
write wc p = (length p, record wc { count = wc.count + length p })

abbrev pub default_user_agent : Text
default_user_agent =
    codes
      "Mozilla/5.0 (Linux; Android 6.0; Nexus 5 Build/MRA58N) AppleWebKit/537.36 (KHTML, like Gecko) Chrome/94.0.4606.61 Mobile Safari/537.36"

unfoldable pub or_default : Text → Text
unfolding text_is_empty
or_default user_agent = if text_is_empty user_agent then default_user_agent else user_agent

abbrev pub parsed_length : Option ℤ → Outcome ℤ
parsed_length none = err (codes "strconv.Atoi: invalid syntax")
parsed_length (some n) = ok n

unfoldable pub status_is_ok : Response → Outcome (Unit {0})
status_is_ok resp =
    if resp.status_code == 200 then ok tt else err (codes "bad status: " ++ resp.status)

abbrev pub user_agent_key : Text
user_agent_key = codes "User-Agent"

-- `DownloadFile`. The bytes that `io.Copy` writes also go to a `WriteCounter`, which only prints.
unfoldable pub download_file : Env → Text → Text → Text → Action (Unit {0})
unfolding new_request atoi status_is_ok or_default do_request
download_file env url filepath user_agent = do
  create filepath
  req ← lift (new_request env (codes "GET") url [])
  resp ← do_request env (record req { header = (user_agent_key, or_default user_agent ∷ []) ∷ [] })
  total ← lift (parsed_length (atoi resp.content_length))
  lift (status_is_ok resp)
  write_file filepath resp.body
