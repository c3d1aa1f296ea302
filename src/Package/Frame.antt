-- ===== src/Package/Frame.antt =====
-- The files that `ApplyPatches` and `ReplicateSinf` leave alone, whatever fails.
use ipaversion.Base.{◌≡◌, ◌∙◌, refl, false, Option, none, some, List, [], ◌∷◌}
use ipaversion.Base.Text.{Text, Bytes, text_eq}
use ipaversion.Outcome.{Result, outcome}
use ipaversion.Plist.{Metadata, Sinf, PackageManifest, PackageInfo}
use ipaversion.World.{
  Env, Entry, system_call, create, remove, rename, open_reader, new_writer, create_raw,
  create_entry, write_entry, close_writer, lift, ◌>>◌,
}
use ipaversion.World.Frame.{
  Keeps, >>=-Keeps, on_error-Keeps, step-Keeps, deferring-Keeps, system_call-Keeps,
  open_reader-Keeps, create_raw-Keeps, write_entry-Keeps, create-Keeps, remove-Keeps,
  close_writer-Keeps, rename-Keeps,
}
use ipaversion.Package.Metadata.{
  replicate_zip, metadata_name, write_metadata, copy_and_patch, apply_patches,
}
use ipaversion.Package.Read.{
  read_plist, read_info_plist, read_manifest_plist, read_bundle_name, first_entry, is_info,
  is_manifest,
}
use ipaversion.Package.Sinf.{
  Pair, manifest_path, info_path, zip, write_sinfs, replicate_sinf_from_manifest, first_content,
  replicate_sinf_from_info, replicate_sinf_by, fill_package, swap_package, tmp_path, replicate_sinf,
}

module _ (p : Text) where
  replicate_zip-Keeps : (es : List Entry) (dst : Text) → Keeps p (replicate_zip es dst)
  unfolding replicate_zip
  replicate_zip-Keeps [] dst = λ w. refl
  replicate_zip-Keeps (e ∷ es) dst = step-Keeps p _ system_call _ (system_call-Keeps p) λ _.
      step-Keeps p _ (create_raw dst e.name e.header) _ (create_raw-Keeps p dst e.name e.header)
        λ _.
          step-Keeps p _ (write_entry dst e.content) _ (write_entry-Keeps p dst e.content)
            λ _. replicate_zip-Keeps es dst

  create_entry-Keeps : (path name : Text) → Keeps p (create_entry path name)
  unfolding create_entry
  create_entry-Keeps path name = create_raw-Keeps p path name 0

  write_metadata-Keeps :
      (env : Env) (m : Metadata) (dst : Text) → Keeps p (write_metadata env m dst)
  unfolding write_metadata
  write_metadata-Keeps env m dst =
      step-Keeps p _ (create_entry dst metadata_name) _ (create_entry-Keeps dst metadata_name) λ _.
        step-Keeps p _ (lift (outcome (env.marshal_indent m))) _ (λ w. refl)
          λ bytes. on_error-Keeps p _ (write_entry dst bytes) (write_entry-Keeps p dst bytes)

  copy_and_patch-Keeps :
      (env : Env) (m : Metadata) (es : List Entry) (dst : Text)
      → Keeps p (copy_and_patch env m es dst)
  unfolding copy_and_patch
  copy_and_patch-Keeps env m es dst =
      step-Keeps p _ (replicate_zip es dst) _ (replicate_zip-Keeps es dst)
        λ _. on_error-Keeps p _ (write_metadata env m dst) (write_metadata-Keeps env m dst)

  pub apply_patches-Keeps :
      (env : Env) (m : Metadata) (src dst : Text)
      → text_eq dst p ≡ false
      → Keeps p (apply_patches env m src dst)
  unfolding apply_patches new_writer
  apply_patches-Keeps env m src dst other =
      step-Keeps p _ (open_reader src) _ (open_reader-Keeps p src) λ es.
        step-Keeps p _ (create dst) _ (create-Keeps p dst other) λ _ w.
          deferring-Keeps p (close_writer dst) (copy_and_patch env m es dst)
            (close_writer-Keeps p dst other) (copy_and_patch-Keeps env m es dst)
            (new_writer dst w).1

  write_sinfs-Keeps :
      (dst bundle : Text) (ps : List (Pair Sinf Text)) → Keeps p (write_sinfs dst bundle ps)
  unfolding write_sinfs
  write_sinfs-Keeps dst bundle [] = λ w. refl
  write_sinfs-Keeps dst bundle (q ∷ ps) =
      step-Keeps p _ (create_entry dst (manifest_path bundle q.second)) _
        (create_entry-Keeps dst (manifest_path bundle q.second))
        λ _.
          step-Keeps p _ (write_entry dst q.first.content) _
            (write_entry-Keeps p dst q.first.content) λ _. write_sinfs-Keeps dst bundle ps

  replicate_sinf_by-Keeps :
      (manifest : Option PackageManifest) (info : Option PackageInfo) (dst : Text)
      (sinfs : List Sinf) (bundle : Text)
      → Keeps p (replicate_sinf_by manifest info dst sinfs bundle)
  unfolding replicate_sinf_by replicate_sinf_from_manifest replicate_sinf_from_info
  replicate_sinf_by-Keeps (some m) info dst sinfs bundle =
      step-Keeps p _ (lift (zip sinfs m.sinf_paths)) _ (λ w. refl)
        λ zipped. write_sinfs-Keeps dst bundle zipped
  replicate_sinf_by-Keeps none (some i) dst sinfs bundle =
      step-Keeps p _ (create_entry dst (info_path bundle i.bundle_executable)) _
        (create_entry-Keeps dst (info_path bundle i.bundle_executable))
        λ _.
          >>=-Keeps p (lift (first_content sinfs)) _ (λ w. refl)
            λ bytes. on_error-Keeps p _ (write_entry dst bytes) (write_entry-Keeps p dst bytes)
  replicate_sinf_by-Keeps none none dst sinfs bundle = λ w. refl

  read_plist-Keeps :
      {A : Type 0} (unmarshal : Bytes → Result A) (e : Option Entry)
      → Keeps p (read_plist unmarshal e)
  unfolding read_plist
  read_plist-Keeps unmarshal none = λ w. refl
  read_plist-Keeps unmarshal (some e) = step-Keeps p _ system_call _ (system_call-Keeps p) λ _.
      step-Keeps p _ system_call _ (system_call-Keeps p)
        λ _. step-Keeps p _ (lift (outcome (unmarshal e.content))) _ (λ w. refl) λ _ w. refl

  pub fill_package-Keeps :
      (env : Env) (sinfs : List Sinf) (es : List Entry) (dst : Text)
      → Keeps p (fill_package env sinfs es dst)
  unfolding fill_package read_info_plist read_manifest_plist
  fill_package-Keeps env sinfs es dst =
      step-Keeps p _ (replicate_zip es dst) _ (replicate_zip-Keeps es dst) λ _.
        step-Keeps p _ (lift (read_bundle_name es)) _ (λ w. refl)
          λ bundle.
            step-Keeps p _ (read_manifest_plist env es) _
              (read_plist-Keeps env.unmarshal_manifest (first_entry is_manifest es))
              λ manifest.
                step-Keeps p _ (read_info_plist env es) _
                  (read_plist-Keeps env.unmarshal_info (first_entry is_info es))
                  λ info.
                    on_error-Keeps p _ (replicate_sinf_by manifest info dst sinfs bundle)
                      (replicate_sinf_by-Keeps manifest info dst sinfs bundle)

  module _ (path : Text) (other : text_eq path p ≡ false)
      (other' : text_eq (tmp_path path) p ≡ false) where
    swap_package-Keeps : Keeps p (swap_package (tmp_path path) path)
    unfolding swap_package
    swap_package-Keeps w =
        let tmp = tmp_path path in
        step-Keeps p _ (remove path) _ (remove-Keeps p path other)
          (λ _. on_error-Keeps p _ (rename tmp path) (rename-Keeps p path other tmp other'))
          (close_writer tmp w).1
        ∙ close_writer-Keeps p tmp other' w

    pub replicate_sinf-Keeps :
        (env : Env) (sinfs : List Sinf) → Keeps p (replicate_sinf env sinfs path)
    unfolding replicate_sinf new_writer
    replicate_sinf-Keeps env sinfs =
        let tmp = tmp_path path in
        step-Keeps p _ (open_reader path) _ (open_reader-Keeps p path) λ es.
          step-Keeps p _ (create tmp) _ (create-Keeps p tmp other') λ _ w.
            deferring-Keeps p (close_writer tmp)
              (fill_package env sinfs es tmp >> swap_package tmp path)
              (close_writer-Keeps p tmp other')
              (>>=-Keeps p (fill_package env sinfs es tmp) (λ _. swap_package tmp path)
                (fill_package-Keeps env sinfs es tmp) (λ _. swap_package-Keeps))
              (new_writer tmp w).1
