-- ===== src/Addon/History.antt =====
-- What the replay of a range of versions finds, sends and counts.
use mathlib.Core.Path.{subst}
use ipaversion.Base.{
  ℕ, suc, zero, ◌+◌, ◌≤◌, ◌≡◌, refl, ap, ◌∙◌, true, some, List, [], ◌∷◌, ◌++◌, append_assoc,
  append-nil, length, take, drop, get_elem?, get_elem?-some, drop-of-get_elem?, arith,
}
use ipaversion.Base.Text.{replace_all}
use ipaversion.Outcome.{Outcome, ok}
use ipaversion.App.{AppInfo}
use ipaversion.World.{Env, Request}
use ipaversion.Addon.State.{Addon, Session}
use ipaversion.Addon.Replay.{replayed_body, string_tag, replay_request}
use ipaversion.Addon.Handle.{retries, replay_input, replay_loop}
use ipaversion.Addon.Retry.{
  first_app, attempts, found_list, copies, grown, Advances, replay_request_lem,
}

grown_twice :
    (a : Addon) (xs ys : List AppInfo) (j k : ℕ)
    → grown (grown a xs j) ys k ≡ grown a (xs ++ ys) (j + k)
grown_twice a xs ys j k = ground (arith, append_assoc a.history_versions xs ys)

Advances-trans :
    {s t u : Session} {xs ys : List AppInfo} {ps qs : List Request} {j k : ℕ}
    → Advances s t xs ps j
    → Advances t u ys qs k
    → Advances s u (xs ++ ys) (ps ++ qs) (j + k)
Advances-trans {s} {t} {u} {xs} {ys} {ps} {qs} {j} {k} f g = record {
  addon_kept = g.addon_kept ∙ ap (λ a. grown a ys k) f.addon_kept ∙ grown_twice s.addon xs ys j k;
  calls_made = omega (arith, f.calls_made, g.calls_made);
  requests_sent =
      g.requests_sent ∙ ap (λ r. r ++ qs) f.requests_sent ∙ append_assoc s.world.sent ps qs;
}

Advances-refl : (s : Session) → Advances s s [] [] 0
Advances-refl s = record {
  addon_kept = ground (arith, append-nil s.addon.history_versions);
  calls_made = omega arith;
  requests_sent = rw append-nil;
}

-- What the queries of `ids` find, in the order of `ids`, the requests that they send and their
-- number, from the n-th request on.
module _ (env : Env) (req : Request) (latest : ℕ) where
  abbrev pub version : ℕ → Request
  version id = record req { body = replace_all req.body (string_tag latest) (string_tag id) }

  abbrev pub tries : ℕ → ℕ → ℕ
  tries id n = attempts env (version id) retries n

  unfoldable pub found : List ℕ → ℕ → List AppInfo
  found [] n = []
  found (id ∷ ids) n =
      found_list (first_app env (version id) retries n) ++ found ids (n + tries id n)

  unfoldable pub requests : List ℕ → ℕ → List Request
  requests [] n = []
  requests (id ∷ ids) n = copies (version id) (tries id n) ++ requests ids (n + tries id n)

  unfoldable pub total : List ℕ → ℕ → ℕ
  total [] n = 0
  total (id ∷ ids) n = tries id n + total ids (n + tries id n)

module _ (env : Env) (req : Request) (app : AppInfo)
    (valid : env.request_is_valid req.method req.url ≡ true) where
  -- The queries of `ids`, the first of which is the m-th request.
  abbrev pub Queries : List ℕ → ℕ → Session → Session → Type 0
  Queries ids m s t =
      let latest = app.software_version_external_identifier in
      Advances s t (found env req latest ids m) (requests env req latest ids m)
        (total env req latest ids m)

  -- A run of the loop over `ids` goes through, and does what their queries do.
  abbrev pub Replays : List ℕ → Session → Outcome (Unit {0}) × Session → Type 0
  Replays ids s (r, t) = (r ≡ ok tt) × Queries ids s.world.calls s t

  replay_loop_step :
      (rounds index i id : ℕ) (ids : List ℕ) (s : Session)
      → get_elem? app.software_version_external_identifiers index ≡ some id
      → (let inp = replay_input req app.software_version_external_identifier id index i in
          let s' = replay_request env inp retries s in
          Replays ids s' (replay_loop env req app rounds (index + 1) (i + 1) s'))
      → Replays (id ∷ ids) s (replay_loop env req app (suc rounds) index i s)
  unfolding replay_loop replayed_body found requests total
  replay_loop_step rounds index i id ids s at (fine, adv) =
      let inp = replay_input req app.software_version_external_identifier id index i in
      let one = replay_request_lem env inp valid retries s in
      let s' = replay_request env inp retries s in
      let t = (replay_loop env req app rounds (index + 1) (i + 1) s').1 in
      rw at (fine, Advances-trans one (subst (λ m. Queries ids m s' t) one.calls_made adv))

  -- The loop over indices of the list does what the queries of those versions do.
  pub replay_loop-Replays :
      (rounds index i : ℕ) (s : Session)
      → rounds + index ≤ length app.software_version_external_identifiers
      → Replays
          (take rounds (drop index app.software_version_external_identifiers))
          s
          (replay_loop env req app rounds index i s)
  unfolding replay_loop found requests total
  replay_loop-Replays zero index i s h = (refl, Advances-refl s)
  replay_loop-Replays (suc rounds) index i s h =
      let ids = app.software_version_external_identifiers in
      let (id, at) = get_elem?-some ids index (omega arith) in
      let inp = replay_input req app.software_version_external_identifier id index i in
      rw (drop-of-get_elem? ids index at) (
        replay_loop_step rounds index i id (take rounds (drop (index + 1) ids)) s at (
          replay_loop-Replays rounds (index + 1) (i + 1) (replay_request env inp retries s)
            (omega arith)))
