-- ===== src/Console/Again.antt =====
-- The user types the index of a version again after its download has failed.
use ipaversion.Base.{
  Bool, ℕ, zero, suc, arith, ◌+◌, ◌^◌, ◌<◌, ◌≡◌, refl, ap, ◌∙◌, true, Option, some, List, [], ◌∷◌,
  ◌++◌, get_elem?,
}
use ipaversion.Base.Text.{Text, Bytes, decimal, trim_space}
use ipaversion.Outcome.{Outcome, ok, err, panic, done}
use ipaversion.App.{AppInfo}
use ipaversion.Download.{ipa_name, download_app}
use ipaversion.Download.Complete.{Serves, downloaded}
use ipaversion.Download.Again.{attempts, download_app_again}
use ipaversion.Package.Quiet.{metadata_entry}
use ipaversion.Package.Seal.{Needs}
use ipaversion.World.{Env, World, Entry}
use ipaversion.Console.Input.{again, leave, printed, then_loop, handle_input}
use ipaversion.Console.Rounds.{handle_read_index}

module _ (env : Env) (user_agent : Text) (app : AppInfo) where
  -- The first `n` downloads of the app return an error each.
  abbrev pub Fails : ℕ → World → Type 0
  Fails zero w = Unit
  Fails (suc n) w =
      (e : Text) × ((download_app env app user_agent true w).0 ≡ err e)
      × Fails n (download_app env app user_agent true w).1

failed_round :
    {A : Type 0} (x : Outcome A × World) (e : Text)
    → x.0 ≡ err e
    → printed leave x ≡ (ok again, x.1)
failed_round (ok a, w) e h = cc
failed_round (err m, w) e h = refl
failed_round (panic p, w) e h = cc

left_round :
    {A : Type 0} (x : Outcome A × World) (a : A) → x.0 ≡ ok a → printed leave x ≡ (ok leave, x.1)
left_round (ok b, w) a h = refl
left_round (err m, w) a h = cc
left_round (panic p, w) a h = cc

-- The same line, `n` times.
abbrev pub repeated : ℕ → Text → List (Option Text) → List (Option Text)
repeated zero line rest = rest
repeated (suc n) line rest = some line ∷ repeated n line rest

module _ (env : Env) (versions : List AppInfo) (user_agent : Text) (app : AppInfo) where
  module _ (line : Text) (index : ℕ) (trimmed : trim_space line ≡ decimal index)
      (small : index < 2 ^ 63) (listed : get_elem? versions index ≡ some app) where
    -- The rounds in which the download fails.
    failed_rounds :
        (n rounds : ℕ) (rest : List (Option Text)) (w : World)
        → Fails env user_agent app n w
        → handle_input env versions user_agent (n + rounds) (repeated n line rest) w
          ≡ handle_input env versions user_agent rounds rest (attempts env app user_agent n w)
    unfolding handle_input
    failed_rounds zero rounds rest w fails =
        ap (λ m. handle_input env versions user_agent m rest w) (omega arith)
    failed_rounds (suc n) rounds rest w (e, failed, fails) =
        let one_more : suc n + rounds ≡ suc (n + rounds) = omega arith in
        ap (λ m. handle_input env versions user_agent m (repeated (suc n) line rest) w) one_more
        ∙ ap
            (λ x.
              then_loop x
                (handle_input env versions user_agent (n + rounds) (repeated n line rest)))
            (handle_read_index env versions user_agent line index app w trimmed small listed
              ∙ failed_round (download_app env app user_agent true w) e failed)
        ∙ failed_rounds n rounds rest (download_app env app user_agent true w).1 fails

    last_round :
        (rounds : ℕ) (rest : List (Option Text)) (w : World) (a : Text × Bool)
        → (download_app env app user_agent true w).0 ≡ ok a
        → handle_input env versions user_agent (suc rounds) (some line ∷ rest) w
          ≡ (ok true, (download_app env app user_agent true w).1)
    unfolding handle_input
    last_round rounds rest w a fine =
        ap (λ x. then_loop x (handle_input env versions user_agent rounds rest))
          (handle_read_index env versions user_agent line index app w trimmed small listed
            ∙ left_round (download_app env app user_agent true w) a fine)

    -- If each of `n` downloads of a version fails, at whatever call and half-way writes included, the
    -- loop of `handleInput` asks again each time, and the same index typed once more leaves it, once no
    -- call fails, if the server sends the archive, the metadata can be written and the package says
    -- where the sinfs go: the files are then those that a first download without failures would have
    -- left.
    pub handle_input_again :
        (n rounds : ℕ) (rest : List (Option Text)) (w : World) (es extra : List Entry)
        (bytes : Bytes)
        → Fails env user_agent app n w
        → (attempts env app user_agent n w).faults ≡ []
        → Serves env (attempts env app user_agent n w).calls app.item.url user_agent es
        → env.marshal_indent app.item.metadata ≡ done bytes
        → Needs env app.item.sinfs (es ++ (metadata_entry bytes ∷ [])) extra
        → let (result, v) =
            handle_input env versions user_agent
              (n + suc rounds)
              (repeated n line (some line ∷ rest))
              w in
          (result ≡ ok true)
          × (v.files
              ≡ downloaded w.files (ipa_name app) ((es ++ (metadata_entry bytes ∷ [])) ++ extra))
    handle_input_again n rounds rest w es extra bytes fails calm serves marshals needs =
        let u = attempts env app user_agent n w in
        let (fine, files) =
          download_app_again env app user_agent n w es extra bytes calm serves marshals needs in
        let whole =
          failed_rounds n (suc rounds) (some line ∷ rest) w fails
          ∙ last_round rounds rest u _ fine in
        (
          ap (λ (x : Outcome Bool × World). x.0) whole,
          ap (λ (x : Outcome Bool × World). x.1.files) whole ∙ files,
        )
