-- ===== src/Package/Safe.antt =====
-- With what `ReplicateSinf` and `ApplyPatches` may panic, whatever the system calls do.
use ipaversion.Base.{
  ◌≡◌, ◌≢◌, refl, inl, inr, Option, none, some, List, [], ◌∷◌, arith, Option-cases,
}
use ipaversion.Base.Text.{Text, Bytes}
use ipaversion.Outcome.{
  Outcome, ok, err, panic, Result, Result-cases, Outcome-cases, index_out_of_range,
}
use ipaversion.Plist.{Sinf, PackageManifest, PackageInfo}
use ipaversion.World.{
  Env, World, Entry, system_call, create_entry, create_raw, write_entry, new_writer, close_writer,
  create, open_reader, remove, rename, lift,
}
use ipaversion.World.Ends.{
  Ends, Anything, after-Ends, with_message-Ends, cleaned-Ends, step-Ends, system_call-Ends,
  create-Ends, remove-Ends, rename-Ends, open_reader-Ends, create_raw-Ends, write_entry-Ends,
}
use ipaversion.Package.Read.{
  first_entry, is_info, is_bundle_info, read_plist, read_info_plist, read_manifest_plist,
  read_bundle_name,
}
use ipaversion.Package.Metadata.{replicate_zip}
use ipaversion.Package.Sinf.{
  Pair, zip, write_sinfs, replicate_sinf_from_manifest, replicate_sinf_from_info, first_content,
  replicate_sinf_by, fill_package, swap_package, tmp_path, replicate_sinf,
}

module _ (P : Text → Type 0) where
  pub replicate_zip-Ends :
      (es : List Entry) (p : Text) (w : World) → Ends Anything P (replicate_zip es p w)
  unfolding replicate_zip
  replicate_zip-Ends [] p w = tt
  replicate_zip-Ends (e ∷ es) p w =
      step-Ends P Anything Anything _ (system_call w) _ (system_call-Ends P w) λ _ w1 _.
        step-Ends P Anything Anything _ (create_raw p e.name e.header w1) _
          (create_raw-Ends P p e.name e.header w1)
          λ _ w2 _.
            step-Ends P Anything Anything _ (write_entry p e.content w2) _
              (write_entry-Ends P p e.content w2) λ _ w3 _. replicate_zip-Ends es p w3

  write_sinfs-Ends :
      (p bundle : Text) (ps : List (Pair Sinf Text)) (w : World)
      → Ends Anything P (write_sinfs p bundle ps w)
  unfolding write_sinfs create_entry
  write_sinfs-Ends p bundle [] w = tt
  write_sinfs-Ends p bundle (q ∷ ps) w =
      step-Ends P Anything Anything _ (create_raw p _ 0 w) _ (create_raw-Ends P p _ 0 w) λ _ w1 _.
        step-Ends P Anything Anything _ (write_entry p q.first.content w1) _
          (write_entry-Ends P p q.first.content w1) λ _ w2 _. write_sinfs-Ends p bundle ps w2

  -- What is read from a file that is there is not the nil pointer.
  read_plist-Ends :
      {A : Type 0} (unmarshal : Bytes → Result A) (e : Entry) (w : World)
      → Ends (λ o. o ≢ none) P (read_plist unmarshal (some e) w)
  unfolding read_plist
  read_plist-Ends unmarshal e w =
      step-Ends P Anything (λ o. o ≢ none) _ (system_call w) _ (system_call-Ends P w)
        λ _ w1 _.
          step-Ends P Anything (λ o. o ≢ none) _ (system_call w1) _ (system_call-Ends P w1)
            λ _ w2 _. elim (Result-cases (unmarshal e.content)) [
              | inl (a, h) ↦ rw h (λ q. cc)
              | inr (m, h) ↦ rw h tt
            ]

first_entry-bundle_info :
    (es : List Entry) → first_entry is_info es ≡ none → first_entry is_bundle_info es ≡ none
unfolding first_entry
first_entry-bundle_info [] h = refl
first_entry-bundle_info (e ∷ es) h = ground (arith, first_entry-bundle_info es)

-- A package with a bundle name has an Info.plist to read.
pub read_bundle_name-info :
    (es : List Entry) (bundle : Text)
    → read_bundle_name es ≡ ok bundle
    → first_entry is_info es ≢ none
unfolding read_bundle_name
read_bundle_name-info es bundle h missing =
    let none_found = first_entry-bundle_info es missing in let h' = rw none_found at h in cc h'

read_bundle_name-ne-panic : (es : List Entry) (m : Text) → read_bundle_name es ≢ panic m
unfolding read_bundle_name
read_bundle_name-ne-panic es m h = ground arith

-- The one panic that is left: the first of no sinfs.
abbrev pub NoSinfs : List Sinf → Text → Type 0
NoSinfs sinfs message = (sinfs ≡ []) × (message ≡ index_out_of_range)

module _ (sinfs : List Sinf) where
  replicate_sinf_from_info-Ends :
      (info : PackageInfo) (p bundle : Text) (w : World)
      → Ends Anything (NoSinfs sinfs) (replicate_sinf_from_info info p sinfs bundle w)
  unfolding replicate_sinf_from_info create_entry
  replicate_sinf_from_info-Ends info p bundle w =
      step-Ends (NoSinfs sinfs) Anything Anything _ (create_raw p _ 0 w) _
        (create_raw-Ends (NoSinfs sinfs) p _ 0 w)
        λ _ w1 _.
          after-Ends (NoSinfs sinfs) Anything Anything (lift (first_content sinfs) w1) _
            (ground arith)
            λ bytes w2 _.
              with_message-Ends (NoSinfs sinfs) Anything _ (write_entry p bytes w2)
                (write_entry-Ends (NoSinfs sinfs) p bytes w2)

  replicate_sinf_from_manifest-Ends :
      (m : PackageManifest) (p bundle : Text) (w : World)
      → Ends Anything (NoSinfs sinfs) (replicate_sinf_from_manifest m p sinfs bundle w)
  unfolding replicate_sinf_from_manifest
  replicate_sinf_from_manifest-Ends m p bundle w =
      step-Ends (NoSinfs sinfs) Anything Anything _ (lift (zip sinfs m.sinf_paths) w) _
        (ground arith) λ ps w1 _. write_sinfs-Ends (NoSinfs sinfs) p bundle ps w1

module _ (env : Env) (sinfs : List Sinf) where
  replicate_sinf_by-Ends :
      (m : Option PackageManifest) (info : Option PackageInfo) (p bundle : Text) (w : World)
      → info ≢ none
      → Ends Anything (NoSinfs sinfs) (replicate_sinf_by m info p sinfs bundle w)
  unfolding replicate_sinf_by
  replicate_sinf_by-Ends (some m) info p bundle w h =
      replicate_sinf_from_manifest-Ends sinfs m p bundle w
  replicate_sinf_by-Ends none (some info) p bundle w h =
      replicate_sinf_from_info-Ends sinfs info p bundle w
  replicate_sinf_by-Ends none none p bundle w h = absurd (h refl)

  read_manifest_plist-Ends :
      (es : List Entry) (w : World) → Ends Anything (NoSinfs sinfs) (read_manifest_plist env es w)
  unfolding read_manifest_plist
  read_manifest_plist-Ends es w = ground arith

  read_info_plist-Ends :
      (es : List Entry) (w : World)
      → first_entry is_info es ≢ none
      → Ends (λ o. o ≢ none) (NoSinfs sinfs) (read_info_plist env es w)
  unfolding read_info_plist
  read_info_plist-Ends es w h = elim (Option-cases (first_entry is_info es)) [
    | inl missing ↦ absurd (h missing)
    | inr (e, found) ↦ rw found (read_plist-Ends (NoSinfs sinfs) env.unmarshal_info e w)
  ]

  fill_package-Ends :
      (es : List Entry) (p : Text) (w : World)
      → Ends Anything (NoSinfs sinfs) (fill_package env sinfs es p w)
  unfolding fill_package
  fill_package-Ends es p w =
      step-Ends (NoSinfs sinfs) Anything Anything _ (replicate_zip es p w) _
        (replicate_zip-Ends (NoSinfs sinfs) es p w)
        λ _ w1 _. elim (Outcome-cases (read_bundle_name es)) [
          | inl (bundle, h) ↦ rw h (
              step-Ends (NoSinfs sinfs) Anything Anything _ (read_manifest_plist env es w1) _
                (read_manifest_plist-Ends es w1)
                λ man w2 _.
                  step-Ends (NoSinfs sinfs) (λ o. o ≢ none) Anything _ (read_info_plist env es w2) _
                    (read_info_plist-Ends es w2 (read_bundle_name-info es bundle h))
                    λ info w3 there.
                      with_message-Ends (NoSinfs sinfs) Anything _
                        (replicate_sinf_by man info p sinfs bundle w3)
                        (replicate_sinf_by-Ends man info p bundle w3 there))
          | inr (inl (e, h)) ↦ rw h tt
          | inr (inr (m, h)) ↦ absurd (read_bundle_name-ne-panic es m h)
        ]

  swap_package-Ends :
      (tmp path : Text) (w : World) → Ends Anything (NoSinfs sinfs) (swap_package tmp path w)
  unfolding swap_package
  swap_package-Ends tmp path w =
      let P = NoSinfs sinfs in
      step-Ends P Anything Anything _ (remove path _) _ (remove-Ends P path _)
        λ _ w1 _. with_message-Ends P Anything _ (rename tmp path w1) (rename-Ends P tmp path w1)

  pub replicate_sinf-Ends :
      (path : Text) (w : World) → Ends Anything (NoSinfs sinfs) (replicate_sinf env sinfs path w)
  unfolding replicate_sinf new_writer
  replicate_sinf-Ends path w =
      let P = NoSinfs sinfs in
      let tmp = tmp_path path in
      step-Ends P Anything Anything _ (open_reader path w) _ (open_reader-Ends P path w) λ es w1 _.
        step-Ends P Anything Anything _ (create tmp w1) _ (create-Ends P tmp w1) λ _ w2 _.
          cleaned-Ends P Anything (close_writer tmp) _ (
            after-Ends P Anything Anything (fill_package env sinfs es tmp _) _
              (fill_package-Ends es tmp _) λ _ w3 _. swap_package-Ends tmp path w3)

  -- Whatever the system calls, the package and the plists are, `ReplicateSinf` panics only where
  -- there are no sinfs, and then by indexing them: the nil pointer that `readInfoPlist` can return
  -- is never followed.
  pub replicate_sinf-panic :
      (path message : Text) (w : World)
      → (replicate_sinf env sinfs path w).0 ≡ panic message
      → (sinfs ≡ []) × (message ≡ index_out_of_range)
  replicate_sinf-panic path message w h =
      panics_by (replicate_sinf env sinfs path w) (replicate_sinf-Ends path w) h
    where
      panics_by :
          (r : Outcome (Unit {0}) × World)
          → Ends Anything (NoSinfs sinfs) r
          → r.0 ≡ panic message
          → NoSinfs sinfs message
      panics_by (ok a, w') e q = cc
      panics_by (err a, w') e q = cc
      panics_by (panic m, w') e q = ground arith
