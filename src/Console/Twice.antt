-- ===== src/Console/Twice.antt =====
-- A process that is started again with `-i` on the same file.
use ipaversion.Base.{◌≡◌, inr, refl, ap, ◌∙◌, sym, Bool, true, false, Option, none, some, [], arith}
use ipaversion.Base.Text.{Text, Bytes, text_eq}
use ipaversion.Outcome.{Outcome, ok, err, panic}
use ipaversion.App.{AppInfo, get_app_info}
use ipaversion.Package.{tmp_path}
use ipaversion.Download.{ipa_name, downloading_name, file_exists, download_app}
use ipaversion.Download.Complete.{download_app_kept}
use ipaversion.Download.Frame.{download_app-Keeps}
use ipaversion.Download.Packaged.{IsDownloaded, download_app-Yields}
use ipaversion.World.{Env, World, Content, Run, after, existing, lift, ◌>>=◌, system_call}
use ipaversion.World.Frame.{system_call-Keeps}
use ipaversion.World.Quiet.{quiet}
use ipaversion.World.Yields.{Yields}
use ipaversion.Console.Process.{content_bytes, read_input}

-- A sequence that returns no error is one of two steps that return none.
after-ok :
    {S A B : Type 0} (x : Outcome A × S) (f : A → Run S B) (b : B) (v : S)
    → after x f ≡ (ok b, v)
    → (a : A) × (u : S) × (x ≡ (ok a, u)) × (f a u ≡ (ok b, v))
after-ok (ok a, u) f b v h = (a, u, refl, h)
after-ok (err e, u) f b v h = cc
after-ok (panic p, u) f b v h = cc

name_of : Outcome (Text × Bool) → Text
name_of (ok r) = r.0
name_of (err e) = e
name_of (panic p) = p

module _ (env : Env) (app : AppInfo) (user_agent : Text) where
  file_exists_there :
      (c : Content) (w : World)
      → w.files (ipa_name app) ≡ some c
      → Yields
          (λ b u. (b ≡ true) × (u.files (ipa_name app) ≡ some c))
          (file_exists (ipa_name app) w)
  unfolding file_exists system_call
  file_exists_there c w there = ground arith

  -- A download without `overwrite` that returns no error leaves a file of the package's name.
  download_app_leaves :
      (w v : World) (r : Text × Bool)
      → download_app env app user_agent false w ≡ (ok r, v)
      → (r.0 ≡ ipa_name app) × (c : Content) × (v.files (ipa_name app) ≡ some c)
  unfolding download_app name_of
  download_app_leaves w v r h = at (w.files (ipa_name app)) refl
    where
      at :
          (o : Option Content)
          → w.files (ipa_name app) ≡ o
          → (r.0 ≡ ipa_name app) × (c : Content) × (v.files (ipa_name app) ≡ some c)
      at none missing =
          let loaded = download_app-Yields env w.calls app user_agent false w refl (inr missing) in
          let (named, _, packaged) : IsDownloaded env w.calls app user_agent r v = rw h at loaded in
          (named, packaged.content, packaged.here)
      at (some c) there =
          let (b, u, asked, rest) = after-ok (file_exists (ipa_name app) w) _ r v h in
          let looked = file_exists_there c w there in
          let (is_so, still) : (b ≡ true) × (u.files (ipa_name app) ≡ some c) =
            rw asked at looked in
          let ended = rw is_so at rest in
          (
            ap (λ (x : Outcome (Text × Bool) × World). name_of x.0) (sym ended),
            c,
            ap (λ (x : Outcome (Text × Bool) × World). x.1.files (ipa_name app)) (sym ended)
                ∙ still,
          )

module _ (env : Env) (raw : Content → Bytes) (path : Text) where
  -- The steps of a process with `-i` that returns no error.
  abbrev Reads : World → Text × Bool → World → Type 0
  Reads w r v =
      (c : Content) × (app : AppInfo) × (u : World) × (w.files path ≡ some c)
      × (get_app_info env (content_bytes raw c) ≡ ok app)
      × (u.files path ≡ w.files path)
      × (download_app env app [] false u ≡ (ok r, v))

  read_input-Reads :
      (w v : World) (r : Text × Bool) → read_input env raw path w ≡ (ok r, v) → Reads w r v
  unfolding read_input
  read_input-Reads w v r h =
      let (_, u, opened, rest) = after-ok (system_call w) _ r v h in
      let kept : u.files path ≡ w.files path =
        ap (λ (x : Outcome (Unit {0}) × World). x.1.files path) (sym opened)
        ∙ system_call-Keeps path w in
      at_file u (u.files path) refl kept rest
    where
      at_file :
          (u : World) (o : Option Content)
          → u.files path ≡ o
          → u.files path ≡ w.files path
          → after
              (existing o, u)
              (λ c. lift (get_app_info env (content_bytes raw c)) >>= λ app.
                download_app env app [] false)
            ≡ (ok r, v)
          → Reads w r v
      at_file u none there kept e = cc
      at_file u (some c) there kept e =
          let (app, t, read, rest) = after-ok (get_app_info env (content_bytes raw c), u) _ r v e in
          (
            c,
            app,
            t,
            sym kept ∙ there,
            ap (λ (x : Outcome AppInfo × World). x.0) read,
            ap (λ (x : Outcome AppInfo × World). x.1.files path) (sym read) ∙ kept,
            rest,
          )

  -- In a world where no call fails, a package that is there is taken for the file's app.
  takes_package :
      (c d : Content) (app : AppInfo) (v : World)
      → v.faults ≡ []
      → v.files path ≡ some c
      → get_app_info env (content_bytes raw c) ≡ ok app
      → v.files (ipa_name app) ≡ some d
      → read_input env raw path v ≡ (ok (ipa_name app, true), v)
  unfolding read_input system_call
  takes_package c d app v calm there read here =
      let same : v ≡ quiet v.files v.writers v.calls v.sent = λ i. record v { faults = calm i } in
      ap (read_input env raw path) same
      ∙ rw (there, read) (download_app_kept v.files v.writers v.calls v.sent env app [] d here)
      ∙ ap (λ x. (ok (ipa_name app, true), x)) (sym same)

  -- Whatever fails: if a process that is given a file with `-i` returns no error, then in the world
  -- that it leaves, once no call fails, a second one with the same file reports the same package as
  -- one that is there, sends nothing and changes nothing, unless the given file is the package or one
  -- of its temporary files.
  pub read_input_twice :
      (w v : World) (r : Text × Bool)
      → read_input env raw path w ≡ (ok r, v)
      → text_eq r.0 path ≡ false
      → text_eq (tmp_path r.0) path ≡ false
      → text_eq (downloading_name r.0) path ≡ false
      → v.faults ≡ []
      → read_input env raw path v ≡ (ok (r.0, true), v)
  read_input_twice w v r h h1 h2 h3 calm =
      let (c, app, u, there, read, kept, loaded) = read_input-Reads w v r h in
      let (named, d, here) = download_app_leaves env app [] u v r loaded in
      let frame =
        download_app-Keeps path env app [] false u (rw named at h1) (rw named at h2)
          (rw named at h3) in
      let same_file : v.files path ≡ some c =
        ap (λ (x : Outcome (Text × Bool) × World). x.1.files path) (sym loaded)
        ∙ frame
        ∙ kept
        ∙ there in
      takes_package c d app v calm same_file read here ∙ ap (λ n. (ok (n, true), v)) (sym named)
