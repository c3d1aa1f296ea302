-- ===== src/Addon/Dumps.antt =====
-- The responses that `-dump` saves.
use mathlib.Core.List.{append_cancel_left, append_cancel_right}
use ipaversion.Base.{
  ℕ, ◌+◌, ◌≤◌, ◌<◌, ◌≡◌, refl, sym, ap, ◌∙◌, true, false, Bool-cases, inl, inr, some, List, [], ◌∷◌,
  ◌++◌, All, All-append, arith,
}
use ipaversion.Base.Text.{Bytes, codes, decimal, text_eq, text_eq→≡}
use ipaversion.Base.Text.Digits.{decimal-Injective}
use ipaversion.Outcome.{ok, Outcome-cases, Result-cases}
use ipaversion.App.{AppInfo, get_app_info}
use ipaversion.App.Laws.{get_app_info_iff}
use ipaversion.Http.{new_request, do_request, with_header, clone_request, gzip_decode_reader}
use ipaversion.World.{
  Env, Request, Content, plain, Files, update, update_self, update_ne, system_call, write_file,
}
use ipaversion.Addon.State.{Addon, Session}
use ipaversion.Addon.Handle.{query_latest, send_done}
use ipaversion.Addon.Once.{serve}
use ipaversion.Addon.Kept.{IsKept, serve-IsKept}
use ipaversion.Addon.Retry.{version_request}
use ipaversion.Addon.Replay.{ReplayRequestInput, dump_name, maybe_dump, replay_attempt}

dump_name-Injective : (m n : ℕ) → dump_name m ≡ dump_name n → m ≡ n
unfolding dump_name
dump_name-Injective m n h = decimal-Injective m n (
    append_cancel_right (decimal m) (decimal n) (codes ".xml") (
      append_cancel_left (codes "savedResponse/ReplayResponse") (decimal m ++ codes ".xml")
        (decimal n ++ codes ".xml") h))

-- Two attempts have two names.
dump_name_ne : (m n : ℕ) → m < n → text_eq (dump_name n) (dump_name m) ≡ false
dump_name_ne m n h = elim (Bool-cases (text_eq (dump_name n) (dump_name m))) [
  | inr differ ↦ differ
  | inl same ↦
      absurd
        (omega (arith, h, dump_name-Injective n m (text_eq→≡ (dump_name n) (dump_name m) same)))
]

-- The app's response is saved under the number of one of the first `k` attempts.
abbrev pub IsSaved : ℕ → Files → AppInfo → Type 0
IsSaved k fs a = (n : ℕ) × (n ≤ k) × (fs (dump_name n) ≡ some (plain a.response))

All-map :
    {A : Type 0} (P Q : A → Type 0) → ((a : A) → P a → Q a) → (xs : List A) → All P xs → All Q xs
All-map P Q f [] h = tt
All-map P Q f (x ∷ xs) (h, hs) = (f x h, All-map P Q f xs hs)

-- The next attempt writes to a name of its own.
next-IsSaved :
    (k : ℕ) (fs : Files) (c : Content) (xs : List AppInfo)
    → All (IsSaved k fs) xs
    → All (IsSaved (k + 1) (update fs (dump_name (k + 1)) (some c))) xs
next-IsSaved k fs c xs h =
    All-map (IsSaved k fs) (IsSaved (k + 1) (update fs (dump_name (k + 1)) (some c)))
      (λ a (n, le, at). (
        n,
        omega (arith, le),
        update_ne fs (dump_name (k + 1)) (dump_name n) (some c)
              (dump_name_ne n (k + 1) (omega (arith, le)))
            ∙ at,
      ))
      xs h

-- Dumps are on, no system call fails, and each version found is saved.
pub record IsDumped (s : Session) : Type 0 where
  pub dumping : s.addon.dump_responses ≡ true
  pub no_faults : s.world.faults ≡ []
  pub saved : All (IsSaved s.addon.counter s.world.files) s.addon.history_versions

-- The session with a response saved.
abbrev saving : Bytes → Session → Session
saving d t = record t {
  world = record t.world {
    files = update t.world.files (dump_name t.addon.counter) (some (plain d));
    faults = [];
  };
}

maybe_dump-quiet :
    (d : Bytes) (t : Session)
    → t.addon.dump_responses ≡ true
    → t.world.faults ≡ []
    → maybe_dump d t ≡ (ok tt, saving d t)
unfolding maybe_dump system_call write_file
maybe_dump-quiet d t e1 e2 = simp (e1, e2) refl

maybe_dump-IsDumped :
    (d : Bytes) (a : AppInfo) (s t : Session)
    → IsDumped s
    → a.response ≡ d
    → t.addon.dump_responses ≡ true
    → t.world.faults ≡ []
    → t.world.files ≡ s.world.files
    → t.addon.counter ≡ s.addon.counter + 1
    → t.addon.history_versions ≡ s.addon.history_versions ++ (a ∷ [])
    → IsDumped (maybe_dump d t).1
maybe_dump-IsDumped d a s t h e e1 e2 e3 e4 e5 =
    let k = s.addon.counter in
    let fs : Files = update s.world.files (dump_name (k + 1)) (some (plain d)) in
    let kept : All (IsSaved (k + 1) fs) (s.addon.history_versions ++ (a ∷ [])) =
      All-append (IsSaved (k + 1) fs) s.addon.history_versions (a ∷ [])
        (next-IsSaved k s.world.files (plain d) s.addon.history_versions h.saved)
        (
          (
            k + 1,
            omega arith,
            update_self s.world.files (dump_name (k + 1)) (some (plain d))
                ∙ ap (λ b. some (plain b)) (sym e),
          ),
          tt,
        ) in
    rw (maybe_dump-quiet d t e1 e2)
      (record { dumping = e1; no_faults = refl; saved = rw (e4, e5, e3) kept })

module _ (env : Env) where
  -- What an attempt that finds no app leaves.
  lost :
      (s t : Session)
      → IsDumped s
      → t.addon.dump_responses ≡ s.addon.dump_responses
      → t.world.faults ≡ s.world.faults
      → t.world.files ≡ s.world.files
      → t.addon.counter ≡ s.addon.counter + 1
      → t.addon.history_versions ≡ s.addon.history_versions
      → IsDumped t
  lost s t d e1 e2 e3 e4 e5 = record {
    dumping = e1 ∙ d.dumping;
    no_faults = e2 ∙ d.no_faults;
    saved =
        rw (e3, e4, e5)
          (All-map (IsSaved s.addon.counter s.world.files)
            (IsSaved (s.addon.counter + 1) s.world.files)
            (λ a (n, le, at). (n, omega (arith, le), at)) s.addon.history_versions d.saved);
  }

  replay_attempt-IsDumped :
      (inp : ReplayRequestInput) (s : Session) → IsDumped s → IsDumped (replay_attempt env inp s).1
  unfolding replay_attempt new_request do_request with_header
  replay_attempt-IsDumped inp s h = elim (Bool-cases (env.request_is_valid inp.method inp.url)) [
    | inr invalid ↦ rw invalid (lost s _ h refl refl refl refl refl)
    | inl valid ↦ elim (Result-cases (env.server s.world.calls (version_request inp))) [
      | inr (e, h1) ↦ rw (valid, h1) (lost s _ h refl refl refl refl refl)
      | inl (resp, h1) ↦ elim (Outcome-cases (gzip_decode_reader resp.body)) [
        | inr (inl (e, h2)) ↦ rw (valid, h1, h2) (lost s _ h refl refl refl refl refl)
        | inr (inr (p, h2)) ↦ rw (valid, h1, h2) (lost s _ h refl refl refl refl refl)
        | inl (d, h2) ↦ elim (Outcome-cases (get_app_info env d)) [
          | inr (inl (e, h3)) ↦ rw (valid, h1, h2, h3) (lost s _ h refl refl refl refl refl)
          | inr (inr (p, h3)) ↦ rw (valid, h1, h2, h3) (lost s _ h refl refl refl refl refl)
          | inl (a, h3) ↦
              rw (valid, h1, h2, h3)
                (maybe_dump-IsDumped d a s _ h ((get_app_info_iff env d a).0 h3).kept h.dumping
                  h.no_faults refl refl refl)
        ]
      ]
    ]
  ]

  query_latest_quiet :
      (req : Request) (s : Session)
      → let t = (query_latest env req s).1 in
        (t.addon ≡ s.addon) × (t.world.files ≡ s.world.files) × (t.world.faults ≡ s.world.faults)
  unfolding query_latest do_request clone_request new_request with_header
  query_latest_quiet req s = ground arith

  query_latest-IsDumped :
      (req : Request) (s : Session) → IsDumped s → IsDumped (query_latest env req s).1
  query_latest-IsDumped req s h =
      let (addon, files, faults) = query_latest_quiet req s in
      record {
        dumping = ap (λ (a : Addon). a.dump_responses) addon ∙ h.dumping;
        no_faults = faults ∙ h.no_faults;
        saved = rw (addon, files) h.saved;
      }

  modify-IsDumped :
      (f : Addon → Addon) (s : Session)
      → (f s.addon).dump_responses ≡ s.addon.dump_responses
      → (f s.addon).counter ≡ s.addon.counter
      → (f s.addon).history_versions ≡ s.addon.history_versions
      → IsDumped s
      → IsDumped (record s { addon = f s.addon })
  modify-IsDumped f s e1 e2 e3 h = record {
    dumping = e1 ∙ h.dumping;
    no_faults = h.no_faults;
    saved = rw (e2, e3) h.saved;
  }

  IsDumped-IsKept : IsKept env IsDumped
  IsDumped-IsKept = record {
    by_attempt = replay_attempt-IsDumped;
    by_query = query_latest-IsDumped;
    by_agent = λ agent s.
        modify-IsDumped (λ (a : Addon). record a { client_user_agent = agent }) s refl refl refl;
    by_signal = λ b s. modify-IsDumped (send_done b) s refl refl refl;
    by_lock = λ s. modify-IsDumped (λ (a : Addon). record a { lock = true }) s refl refl refl;
  }

  -- With `-dump`, in a world where no system call fails, any run of flows keeps this: the response of
  -- each version in the history is in the file of one of the attempts counted. No later response
  -- replaces an earlier one.
  pub serve-IsDumped :
      (reqs : List Request) (s : Session) → IsDumped s → IsDumped (serve env reqs s)
  serve-IsDumped = serve-IsKept env IsDumped IsDumped-IsKept
