-- ===== src/Console/Whole.antt =====
-- A whole run: from the buy request to the finished package.
use ipaversion.Base.{
  ℕ, suc, ◌+◌, ◌^◌, ◌<◌, ◌≡◌, inl, refl, ◌∙◌, Bool, true, false, Option, none, some, List, [], ◌∷◌,
  ◌++◌, get_elem?,
}
use ipaversion.Base.Text.{Text, Bytes, trim_space, decimal, text_is_empty}
use ipaversion.Outcome.{ok, done}
use ipaversion.App.{AppInfo}
use ipaversion.World.{Env, World, Content, Entry, Request, Files, update}
use ipaversion.World.Quiet.{quiet}
use ipaversion.Package.{tmp_path}
use ipaversion.Package.Quiet.{metadata_entry}
use ipaversion.Package.Seal.{Needs}
use ipaversion.Download.{ipa_name}
use ipaversion.Download.Complete.{Serves, download_request, downloaded, download_app_complete}
use ipaversion.Addon.{Session, handle_buy_request, user_agent_of}
use ipaversion.Addon.Retry.{answer}
use ipaversion.Addon.History.{found, requests, total}
use ipaversion.Addon.Buy.{selected, served, handle_buy_request-served}
use ipaversion.Addon.Once.{serve, first_buy, locked, serve_lem}
use ipaversion.Addon.Calm.{quiet_world, handle_buy_request-IsCalm}
use ipaversion.Console.Proxy.{
  Shell, host, port, ProxyCall, create_proxy, set_on, set_off, turn_on_proxy, turn_off_proxy,
  with_proxy,
}
use ipaversion.Console.Input.{handle_input}
use ipaversion.Console.Process.{
  Flags, Outside, returned, fresh_addon, input_ended, recovered_main, on_signal, after_done,
  wait_done, captured, start_proxy, new_proxy_then, capture, main,
}
use ipaversion.Console.Rounds.{handle_read_index}
use ipaversion.Console.Cleanup.{fresh}

-- No flag but `-start` and `-end` is given.
pub record IsDefault (f : Flags) : Type 0 where
  pub no_help : f.show_help ≡ false
  pub no_version : f.show_version ≡ false
  pub no_input : f.input ≡ []
  pub no_status : f.proxy_status ≡ false
  pub no_cleanup : f.cleanup ≡ false
  pub no_skip : f.skip_proxy ≡ false
  pub no_dump : f.dump ≡ false

on_signal-returned : (b : Bool) (s : Shell) → on_signal b (returned, s) ≡ (returned, s)
unfolding on_signal
on_signal-returned true s = refl
on_signal-returned false s = refl

module _ (env : Env) (f : Flags) (o : Outside) (fs : Files) (ws : Text → Option (List Entry))
    (n : ℕ) (rs : List Request) (req : Request) (latest : AppInfo) where
  -- The versions found, and the world's counts after them.
  abbrev pub ids : List ℕ
  ids = selected latest (fresh_addon f)

  abbrev pub versions : List AppInfo
  versions = found env req latest.software_version_external_identifier ids (n + 1)

  abbrev pub calls_before : ℕ
  calls_before = n + 1 + total env req latest.software_version_external_identifier ids (n + 1)

  abbrev pub sent_before : List Request
  sent_before =
      (rs ++ (req ∷ [])) ++ requests env req latest.software_version_external_identifier ids (n + 1)

  -- The proxy starts, a buy flow comes that the store answers with `latest`, and the user types the
  -- index of `chosen`, which can be downloaded and sealed.
  pub record GoesWell (chosen : AppInfo) (es extra : List Entry) (bytes : Bytes) : Type 0 where
    pub created : o.new_proxy ≡ done tt
    pub started : o.start_error ≡ none
    pub bought : first_buy o.flows ≡ some req
    pub valid : env.request_is_valid req.method req.url ≡ true
    pub answered : answer env req n ≡ ok latest
    pub line : Text
    pub reads : List (Option Text)
    pub typed : o.reads ≡ some line ∷ reads
    pub index : ℕ
    pub trimmed : trim_space line ≡ decimal index
    pub small : index < 2 ^ 63
    pub listed : get_elem? versions index ≡ some chosen
    pub serves : Serves env calls_before chosen.item.url (user_agent_of req.header) es
    pub marshals : env.marshal_indent chosen.item.metadata ≡ done bytes
    pub needs : Needs env chosen.item.sinfs (es ++ (metadata_entry bytes ∷ [])) extra

  abbrev final_world : AppInfo → List Entry → List Entry → Bytes → World
  final_world chosen es extra bytes =
      quiet (downloaded fs (ipa_name chosen) ((es ++ (metadata_entry bytes ∷ [])) ++ extra))
        (update (update ws (ipa_name chosen) none) (tmp_path (ipa_name chosen)) none)
        (calls_before + 1)
        (sent_before ++ (download_request chosen.item.url (user_agent_of req.header) ∷ []))

  module _ (chosen : AppInfo) (es extra : List Entry) (bytes : Bytes)
      (w : GoesWell chosen es extra bytes) where
    input_leaves :
        (rounds : ℕ)
        → handle_input env versions
            (user_agent_of req.header)
            (suc rounds)
            o.reads
            (quiet fs ws calls_before sent_before)
          ≡ (ok true, final_world chosen es extra bytes)
    unfolding handle_input
    input_leaves rounds = rw w.typed (
        rw
          (handle_read_index env versions (user_agent_of req.header) w.line w.index chosen _
            w.trimmed w.small w.listed)
          (rw (
            download_app_complete fs ws calls_before sent_before env chosen
              (user_agent_of req.header) true es extra bytes (inl refl) w.serves w.marshals
              w.needs)))

    abbrev session_then : Session
    session_then = record {
      addon = served env req w.valid latest (record (fresh_addon f) { lock = true }) (n + 1);
      world = quiet fs ws calls_before sent_before;
    }

    served_session :
        f.dump ≡ false
        → serve env o.flows (record { addon = fresh_addon f; world = quiet fs ws n rs })
          ≡ session_then
    served_session plain_flags =
        let s : Session = record { addon = fresh_addon f; world = quiet fs ws n rs } in
        let (kept, calls, sent) =
          handle_buy_request-served env req w.valid (locked s) latest w.answered in
        let t = handle_buy_request env req (locked s) in
        let calm = handle_buy_request-IsCalm fs ws env req (locked s) (record {
          no_dump = plain_flags;
          files_kept = refl;
          writers_kept = refl;
          no_faults = refl;
        }) in
        let world : t.world ≡ quiet fs ws calls_before sent_before =
          quiet_world fs ws t calm ∙ (λ i. quiet fs ws (calls i) (sent i)) in
        let same : t ≡ session_then = λ i. record { addon = kept i; world = world i } in
        serve_lem env o.flows s refl ∙ rw w.bought same

    abbrev whole_calls : List ProxyCall
    whole_calls = create_proxy ∷ (set_on host port ∷ (set_off host port ∷ []))

    abbrev pub final_shell : Shell
    final_shell = record {
      system_proxy = true;
      proxy_calls = whole_calls;
      world = final_world chosen es extra bytes;
    }

    captured_lem :
        (rounds : ℕ)
        → f.skip_proxy ≡ false
        → captured env f o (suc rounds) (turn_on_proxy (fresh (quiet fs ws n rs))) session_then
          ≡ (returned, final_shell)
    unfolding captured wait_done after_done input_ended turn_on_proxy turn_off_proxy with_proxy
    captured_lem rounds shown = simp (shown, input_leaves rounds) refl

    pub capture_whole :
        (rounds : ℕ)
        → f.skip_proxy ≡ false
        → f.dump ≡ false
        → capture env f o (suc rounds) (fresh (quiet fs ws n rs)) ≡ (returned, final_shell)
    unfolding capture new_proxy_then start_proxy recovered_main
    capture_whole rounds shown plain_flags =
        simp (shown, w.created, w.started)
          (simp (served_session plain_flags, captured_lem rounds shown)
            (on_signal-returned o.signalled final_shell))

    -- A process without flags but `-start` and `-end`, in a world where no system call fails, whose
    -- proxy starts and meets a valid buy request that the store answers with an app, and whose user
    -- types the index of a version that the store serves and that says where its sinfs go: it
    -- returns, the system proxy is off, and the version's package is there under its name, with
    -- the metadata and the sinfs; its temporary names hold nothing, and no other file has changed.
    pub main_lem :
        (raw : Content → Bytes) (rounds : ℕ)
        → IsDefault f
        → main env raw f o (suc rounds) (fresh (quiet fs ws n rs)) ≡ (returned, final_shell)
    unfolding main text_is_empty
    main_lem raw rounds d =
        simp (d.no_help, d.no_version, d.no_input, d.no_status, d.no_cleanup)
          (capture_whole rounds d.no_skip d.no_dump)
