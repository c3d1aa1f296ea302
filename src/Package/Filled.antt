-- ===== src/Package/Filled.antt =====
-- What the temporary archive holds once `ReplicateSinf` has filled it, whatever could have failed.
use ipaversion.Base.{
  ℕ, sym, ◌∙◌, ap, Option, none, some, List, [], ◌∷◌, ◌++◌, append-nil, append_assoc,
}
use ipaversion.Base.Text.{Text, Bytes}
use ipaversion.Outcome.{Outcome, ok, err, panic, Result, outcome}
use ipaversion.Plist.{Sinf, PackageManifest, PackageInfo}
use ipaversion.World.{
  Env, World, Action, Entry, lift, on_error, ◌>>◌, system_call, create_raw, create_entry,
  write_entry,
}
use ipaversion.World.Post.{
  Post, Post-map, after-Post, with_message-Post, step-Post, Holds, system_call-Post,
  create_raw-Post, write_entry-Post,
}
use ipaversion.Package.Metadata.{replicate_zip}
use ipaversion.Package.Read.{
  read_plist, read_info_plist, read_manifest_plist, read_bundle_name, first_entry, is_info,
  is_manifest,
}
use ipaversion.Package.Sinf.{
  Pair, manifest_path, info_path, zip, write_sinfs, replicate_sinf_from_manifest, first_content,
  replicate_sinf_from_info, replicate_sinf_by, fill_package,
}

-- A call whose outcome is known does nothing to the world.
lift-Post : {A : Type 0} (Q : World → Type 0) (o : Outcome A) (w : World) → Q w → Post Q (lift o w)
lift-Post Q (ok a) w h = h
lift-Post Q (err e) w h = tt
lift-Post Q (panic p) w h = tt

module _ (p : Text) where
  add_entry-Post :
      (R : World → Type 0) (base : List Entry) (name : Text) (header : ℕ) (d : Bytes)
      (f g : Text → Text) {B : Type 0} (k : Action B) (w : World)
      → Holds p base w
      → ((v : World)
          → Holds p (base ++ (record { name = name; header = header; content = d } ∷ [])) v
          → Post R (k v))
      → Post R ((on_error f (create_raw p name header) >> (on_error g (write_entry p d) >> k)) w)
  add_entry-Post R base name header d f g k w h next =
      let e : Entry = record { name = name; header = header; content = [] } in
      step-Post (Holds p (base ++ (e ∷ []))) R f (create_raw p name header w) _
        (create_raw-Post p base name header w h)
        λ _ v1 h1.
          step-Post (Holds p (base ++ (record e { content = d } ∷ []))) R g (write_entry p d v1) _
            (write_entry-Post p base e d v1 h1) λ _ v2 h2. next v2 h2

  pub replicate_zip-Post :
      (es base : List Entry) (w : World)
      → Holds p base w
      → Post (Holds p (base ++ es)) (replicate_zip es p w)
  unfolding replicate_zip
  replicate_zip-Post [] base w h = rw append-nil h
  replicate_zip-Post (e ∷ es) base w h =
      step-Post (Holds p base) (Holds p (base ++ (e ∷ es))) _ (system_call w) _
        (system_call-Post p base w h)
        λ _ v k.
          add_entry-Post (Holds p (base ++ (e ∷ es))) base e.name e.header e.content _ _
            (replicate_zip es p) v k
            λ u j.
              (let q = replicate_zip-Post es (base ++ (e ∷ [])) u j in
                rw (append_assoc base (e ∷ []) es) at q)

  -- The writer holds these entries and more behind them.
  abbrev pub More : List Entry → World → Type 0
  More es w = (more : List Entry) × Holds p (es ++ more) w

  longer :
      (es more : List Entry) (e : Entry) (w : World)
      → Holds p ((es ++ more) ++ (e ∷ [])) w
      → More es w
  longer es more e w h = (more ++ (e ∷ []), h ∙ ap some (append_assoc es more (e ∷ [])))

  write_sinfs-Post :
      (es : List Entry) (bundle : Text) (ps : List (Pair Sinf Text)) (w : World)
      → More es w
      → Post (More es) (write_sinfs p bundle ps w)
  unfolding write_sinfs create_entry
  write_sinfs-Post es bundle [] w h = h
  write_sinfs-Post es bundle (q ∷ ps) w (more, h) =
      add_entry-Post (More es) (es ++ more) (manifest_path bundle q.second) 0 q.first.content _ _
        (write_sinfs p bundle ps) w h λ v k. write_sinfs-Post es bundle ps v (longer es more _ v k)

  replicate_sinf_by-Post :
      (es : List Entry) (manifest : Option PackageManifest) (info : Option PackageInfo)
      (sinfs : List Sinf) (bundle : Text) (w : World)
      → More es w
      → Post (More es) (replicate_sinf_by manifest info p sinfs bundle w)
  unfolding replicate_sinf_by replicate_sinf_from_manifest replicate_sinf_from_info create_entry
  replicate_sinf_by-Post es (some m) info sinfs bundle w h =
      step-Post (More es) (More es) _ (lift (zip sinfs m.sinf_paths) w) _
        (lift-Post (More es) (zip sinfs m.sinf_paths) w h)
        λ zipped v k. write_sinfs-Post es bundle zipped v k
  replicate_sinf_by-Post es none (some i) sinfs bundle w (more, h) =
      let e : Entry = record {
        name = info_path bundle i.bundle_executable;
        header = 0;
        content = [];
      } in
      let Q = Holds p ((es ++ more) ++ (e ∷ [])) in
      step-Post Q (More es) _ (create_raw p (info_path bundle i.bundle_executable) 0 w) _
        (create_raw-Post p (es ++ more) (info_path bundle i.bundle_executable) 0 w h)
        λ _ v1 h1.
          after-Post Q (More es) (lift (first_content sinfs) v1) _
            (lift-Post Q (first_content sinfs) v1 h1)
            λ d v2 h2. with_message-Post (More es) _ (write_entry p d v2) (
              Post-map _ (More es) (longer es more (record e { content = d })) (write_entry p d v2)
                (write_entry-Post p (es ++ more) e d v2 h2))
  replicate_sinf_by-Post es none none sinfs bundle w h = tt

  read_plist-Post :
      {A : Type 0} (es : List Entry) (unmarshal : Bytes → Result A) (e : Option Entry) (w : World)
      → Holds p es w
      → Post (Holds p es) (read_plist unmarshal e w)
  unfolding read_plist
  read_plist-Post es unmarshal none w h = h
  read_plist-Post es unmarshal (some e) w h =
      let Q = Holds p es in
      step-Post Q Q _ (system_call w) _ (system_call-Post p es w h) λ _ v1 h1.
        step-Post Q Q _ (system_call v1) _ (system_call-Post p es v1 h1) λ _ v2 h2.
          step-Post Q Q _ (lift (outcome (unmarshal e.content)) v2) _
            (lift-Post Q (outcome (unmarshal e.content)) v2 h2) λ _ _ h3. h3

  -- When the archive was filled, its writer holds the old files in their order, and more behind.
  pub fill_package-Post :
      (env : Env) (sinfs : List Sinf) (es : List Entry) (w : World)
      → Holds p [] w
      → Post (More es) (fill_package env sinfs es p w)
  unfolding fill_package read_info_plist read_manifest_plist
  fill_package-Post env sinfs es w h =
      let Q = Holds p es in
      let R = More es in
      step-Post Q R _ (replicate_zip es p w) _ (replicate_zip-Post es [] w h) λ _ v1 h1.
        step-Post Q R _ (lift (read_bundle_name es) v1) _ (lift-Post Q (read_bundle_name es) v1 h1)
          λ bundle v2 h2.
            step-Post Q R _ (read_manifest_plist env es v2) _
              (read_plist-Post es env.unmarshal_manifest (first_entry is_manifest es) v2 h2)
              λ manifest v3 h3.
                step-Post Q R _ (read_info_plist env es v3) _
                  (read_plist-Post es env.unmarshal_info (first_entry is_info es) v3 h3)
                  λ info v4 h4.
                    with_message-Post R _ (replicate_sinf_by manifest info p sinfs bundle v4) (
                      replicate_sinf_by-Post es manifest info sinfs bundle v4
                        ([], h4 ∙ ap some (sym (append-nil es))))
