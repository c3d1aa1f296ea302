-- ===== src/Addon/Replay.antt =====
-- `replayRequest`: one version is queried, and again if that panics.
use ipaversion.Base.{ℕ, suc, zero, ◌+◌, [], ◌∷◌, ◌++◌, if◌then◌else◌}
use ipaversion.Base.Text.{Text, Bytes, codes, decimal, replace_all}
use ipaversion.Outcome.{Outcome, ok, err, panic, nil_dereference}
use ipaversion.App.{get_app_info}
use ipaversion.Http.{new_request, with_header, do_request, gzip_decode_reader}
use ipaversion.World.{
  Env, Header, plain, ◌>>=◌, ◌>>◌, pure, lift, ignore, Run, system_call, write_file,
}
use ipaversion.Addon.State.{Session, in_world, modify, or_panicln, println}

pub record ReplayRequestInput : Type 0 where
  pub method : Text
  pub url : Text
  pub header : Header
  pub body : Bytes
  pub latest_version_id : ℕ
  pub target_version_id : ℕ
  pub index : ℕ
  pub actual_index : ℕ

-- `fmt.Sprintf("<string>%v</string>", id)`
unfoldable pub string_tag : ℕ → Bytes
unfolding decimal
string_tag id = codes "<string>" ++ (decimal id ++ codes "</string>")

unfoldable pub replayed_body : ReplayRequestInput → Bytes
unfolding replace_all string_tag
replayed_body inp =
    replace_all inp.body (string_tag inp.latest_version_id) (string_tag inp.target_version_id)

-- `savedResponse/ReplayResponse%v.xml`
unfoldable pub dump_name : ℕ → Text
unfolding decimal
dump_name counter = codes "savedResponse/ReplayResponse" ++ (decimal counter ++ codes ".xml")

-- `os.MkdirAll` and `os.WriteFile`; neither error stops the add-on.
dump_response : Bytes → Run Session (Unit {0})
unfolding in_world dump_name
dump_response response s =
    (do
      in_world (ignore system_call)
      in_world (ignore (write_file (dump_name s.addon.counter) (plain response))))
      s

unfoldable pub maybe_dump : Bytes → Run Session (Unit {0})
unfolding dump_response
maybe_dump response s = if s.addon.dump_responses then dump_response response s else pure tt s

abbrev pub decode_failed : Text → Text
decode_failed = println (codes "Failed to decode the response body:")

abbrev pub parse_failed : Text → Text
parse_failed = println (codes "Failed to parse the app info:")

-- The body of `replayRequest`.
unfoldable pub replay_attempt : Env → ReplayRequestInput → Run Session (Unit {0})
unfolding in_world with_header
replay_attempt env inp = do
  modify (λ a. record a { counter = a.counter + 1 })
  req ← lift (with_header inp.header (new_request env inp.method inp.url (replayed_body inp)))
  resp ← or_panicln (λ _. nil_dereference) (in_world (do_request env req))
  decoded ← or_panicln decode_failed (lift (gzip_decode_reader resp.body))
  info ← or_panicln parse_failed (lift (get_app_info env decoded))
  modify (λ a. record a { history_versions = a.history_versions ++ (info ∷ []) })
  maybe_dump decoded

-- `defer func() { if err := recover(); … }`: a panic is caught, and `again` runs if there is a retry.
unfoldable pub recovered : (Session → Session) → Outcome (Unit {0}) → Session → Session
recovered again (ok _) s = s
recovered again (err e) s = s
recovered again (panic p) s = again s

-- `replayRequest`
unfoldable pub replay_request : Env → ReplayRequestInput → ℕ → Session → Session
unfolding replay_attempt recovered
replay_request env inp zero s = let (r, s') = replay_attempt env inp s in recovered (λ t. t) r s'
replay_request env inp (suc retry) s =
    let (r, s') = replay_attempt env inp s in recovered (λ t. replay_request env inp retry t) r s'
