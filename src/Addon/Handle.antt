-- ===== src/Addon/Handle.antt =====
-- `handleBuyRequest`, `Request` and `Response`.
use ipaversion.Base.{
  ℕ, suc, zero, ◌+◌, ◌-◌, Bool, true, false, [], ◌∷◌, ◌++◌, length, get_elem?, if◌then◌else◌,
}
use ipaversion.Base.Int.{pos_part}
use ipaversion.Base.Text.{Text, codes, contains, text_is_empty}
use ipaversion.Outcome.{Outcome, ok, err, panic, index_out_of_range, or_panic}
use ipaversion.App.{AppInfo, get_app_info}
use ipaversion.Http.{clone_request, do_request, gzip_decode_reader}
use ipaversion.Download.{default_user_agent, user_agent_key}
use ipaversion.World.{Env, Header, Request, Response, ◌>>=◌, ◌>>◌, pure, lift, Run, header_get}
use ipaversion.Addon.Range.{index_range}
use ipaversion.Addon.State.{Addon, Session, in_world, modify, or_panicln, println}
use ipaversion.Addon.Replay.{ReplayRequestInput, replay_request}

abbrev pub retries : ℕ
retries = 3

-- The input for one version of the flow's app.
unfoldable pub replay_input : Request → ℕ → ℕ → ℕ → ℕ → ReplayRequestInput
replay_input req latest target index i = record {
  method = req.method;
  url = req.url;
  header = req.header;
  body = req.body;
  latest_version_id = latest;
  target_version_id = target;
  index = index;
  actual_index = i;
}

-- The loop over `[start, end)`, with the rounds that are left; `i` counts the rounds done.
unfoldable pub replay_loop : Env → Request → AppInfo → ℕ → ℕ → ℕ → Run Session (Unit {0})
unfolding replay_input
replay_loop env req latest zero index i = pure tt
replay_loop env req latest (suc rounds) index i = do
  id ←
      lift
        (or_panic (get_elem? latest.software_version_external_identifiers index) index_out_of_range)
  λ s. replay_loop env req latest rounds (index + 1) (i + 1) (
      replay_request env (replay_input req latest.software_version_external_identifier id index i)
        retries s)

-- The range is computed from the add-on's flags, and replayed.
unfoldable pub replay_range : Env → Request → AppInfo → Run Session (Unit {0})
unfolding replay_loop
replay_range env req latest s =
    let (start, end') =
      index_range (length latest.software_version_external_identifiers) s.addon.start s.addon.end in
    replay_loop env req latest (pos_part end' - pos_part start) (pos_part start) 0 s

unfoldable pub user_agent_of : Header → Text
user_agent_of header =
    let agent = header_get header user_agent_key in
    if text_is_empty agent then default_user_agent else agent

-- `c.Done <- b`
abbrev pub send_done : Bool → Addon → Addon
send_done b a = record a { done = a.done ++ (b ∷ []) }

abbrev pub clone_failed : Text → Text
clone_failed = println (codes "Failed to clone the request:")

abbrev pub query_failed : Text → Text
query_failed = println (codes "Failed to query all versionIDs:")

abbrev pub body_failed : Text → Text
body_failed = println (codes "Failed to decode response body:")

abbrev pub latest_failed : Text → Text
latest_failed = println (codes "Failed to parse latest app info:")

-- The query for the latest version.
unfoldable pub query_latest : Env → Request → Run Session AppInfo
unfolding in_world
query_latest env req = do
  clone ← or_panicln clone_failed (lift (clone_request env req))
  res ← or_panicln query_failed (in_world (do_request env clone))
  res_body ← or_panicln body_failed (lift (gzip_decode_reader res.body))
  or_panicln latest_failed (lift (get_app_info env res_body))

-- The body of `handleBuyRequest`.
unfoldable pub handle_body : Env → Request → Run Session (Unit {0})
handle_body env req = do
  modify (λ a. record a { client_user_agent = user_agent_of req.header })
  latest ← query_latest env req
  replay_range env req latest
  modify (send_done true)

-- The deferred `recover` of `handleBuyRequest`: the caller sees no panic.
unfoldable pub recover_done : Outcome (Unit {0}) × Session → Session
recover_done (ok _, s) = s
recover_done (err e, s) = s
recover_done (panic p, s) = record s { addon = send_done false s.addon }

-- `handleBuyRequest`
unfoldable pub handle_buy_request : Env → Request → Session → Session
unfolding recover_done
handle_buy_request env req s = recover_done (handle_body env req s)

abbrev pub target_url_substr : Text
target_url_substr = codes "-buy.itunes.apple.com/WebObjects/MZBuy.woa/wa/buyProduct"

-- `Addon.Request`; `TryLock` fails where the mutex is held, and takes it where it is not.
unfoldable pub on_request : Env → Request → Session → Session
unfolding contains
on_request env req s =
    if contains req.url target_url_substr
    then (if s.addon.lock
        then s
        else handle_buy_request env req (record s { addon = record s.addon { lock = true } }))
    else s

-- `Addon.Response` does nothing.
unfoldable pub on_response : Response → Session → Session
on_response res s = s
