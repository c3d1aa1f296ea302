-- ===== src/Download/Again.antt =====
-- A download that is tried again after failures.
use mathlib.Core.Path.{fun_ext}
use ipaversion.Base.{
  ℕ, zero, suc, ◌≡◌, refl, ap, ◌∙◌, inl, inr, Bool, Bool-cases, true, false, List, [], ◌∷◌, ◌++◌,
}
use ipaversion.Base.Text.{Text, Bytes, text_eq}
use ipaversion.Outcome.{Outcome, ok, done}
use ipaversion.App.{AppInfo}
use ipaversion.World.{Env, World, Entry, Files}
use ipaversion.World.Quiet.{quiet}
use ipaversion.Package.{tmp_path}
use ipaversion.Package.Quiet.{metadata_entry}
use ipaversion.Package.Seal.{Needs}
use ipaversion.Download.Steps.{ipa_name, downloading_name, download_app}
use ipaversion.Download.Frame.{download_app-Keeps}
use ipaversion.Download.Complete.{Serves, downloaded, download_app_complete}

-- Two disks that agree but for the names of a package agree after its download.
downloaded-cong :
    (fs gs : Files) (name : Text) (es : List Entry)
    → ((q : Text)
        → text_eq name q ≡ false
        → text_eq (tmp_path name) q ≡ false
        → text_eq (downloading_name name) q ≡ false
        → fs q ≡ gs q)
    → downloaded fs name es ≡ downloaded gs name es
downloaded-cong fs gs name es h = fun_ext λ q.
    elim (Bool-cases (text_eq (downloading_name name) q)) [
      | inl hit ↦ rw hit
      | inr h3 ↦ elim (Bool-cases (text_eq name q)) [
        | inl hit ↦ rw (h3, hit)
        | inr h1 ↦ elim (Bool-cases (text_eq (tmp_path name) q)) [
          | inl hit ↦ rw (h3, h1, hit)
          | inr h2 ↦ rw (h3, h1, h2) (h q h1 h2 h3)
        ]
      ]
    ]

module _ (env : Env) (app : AppInfo) (user_agent : Text) where
  -- The world after some downloads of the app over any file of its name, however they end.
  abbrev pub attempts : ℕ → World → World
  attempts zero w = w
  attempts (suc n) w = attempts n (download_app env app user_agent true w).1

  attempts-Keeps :
      (n : ℕ) (w : World) (q : Text)
      → text_eq (ipa_name app) q ≡ false
      → text_eq (tmp_path (ipa_name app)) q ≡ false
      → text_eq (downloading_name (ipa_name app)) q ≡ false
      → (attempts n w).files q ≡ w.files q
  attempts-Keeps zero w q h1 h2 h3 = refl
  attempts-Keeps (suc n) w q h1 h2 h3 =
      attempts-Keeps n (download_app env app user_agent true w).1 q h1 h2 h3
      ∙ download_app-Keeps q env app user_agent true w h1 h2 h3

  -- However often the download of a version was tried, and whatever failed then, half-way writes
  -- included: once no call fails, the next try over any file of the name succeeds, if the server sends
  -- the archive, the metadata can be written and the package says where the sinfs go, and leaves the
  -- files that a first download without failures would have left.
  pub download_app_again :
      (n : ℕ) (w : World) (es extra : List Entry) (bytes : Bytes)
      → (attempts n w).faults ≡ []
      → Serves env (attempts n w).calls app.item.url user_agent es
      → env.marshal_indent app.item.metadata ≡ done bytes
      → Needs env app.item.sinfs (es ++ (metadata_entry bytes ∷ [])) extra
      → let (result, v) = download_app env app user_agent true (attempts n w) in
        (result ≡ ok (ipa_name app, false))
        × (v.files
            ≡ downloaded w.files (ipa_name app) ((es ++ (metadata_entry bytes ∷ [])) ++ extra))
  download_app_again n w es extra bytes calm serves marshals needs =
      let u = attempts n w in
      let same : u ≡ quiet u.files u.writers u.calls u.sent = λ i. record u { faults = calm i } in
      let whole =
        ap (download_app env app user_agent true) same
        ∙ download_app_complete u.files u.writers u.calls u.sent env app user_agent true es extra
            bytes (inl refl) serves marshals needs in
      (
        ap (λ (x : Outcome (Text × Bool) × World). x.0) whole,
        ap (λ (x : Outcome (Text × Bool) × World). x.1.files) whole
            ∙ downloaded-cong u.files w.files (ipa_name app) _ (attempts-Keeps n w),
      )
