-- ===== src/Package/Quiet.antt =====
-- What `ApplyPatches` and `ReplicateSinf` leave on the disk when no system call fails.
use ipaversion.Base.{ℕ, ◌≡◌, ◌∙◌, Option, none, some, List, [], ◌∷◌, ◌++◌, append-nil, append_assoc}
use ipaversion.Base.Text.{Text, Bytes}
use ipaversion.Outcome.{ok, done}
use ipaversion.Plist.{Metadata}
use ipaversion.World.{
  Env, Action, Request, Entry, plain, archive, Files, update, update_self, on_error, system_call,
  create_raw, write_entry, create_entry, new_writer, ◌>>◌,
}
use ipaversion.World.Quiet.{
  quiet, update-update, update_same, create-quiet, open_reader-quiet, create_raw-quiet,
  write_entry-quiet, close_writer-quiet,
}
use ipaversion.Package.Metadata.{
  replicate_zip, metadata_name, write_metadata, copy_and_patch, apply_patches,
}

module _ (fs : Files) (n : ℕ) (rs : List Request) (p : Text) where
  -- One file of an archive is created and filled, and the code goes on.
  pub add_entry-quiet :
      (ws : Text → Option (List Entry)) (es : List Entry) (name : Text) (header : ℕ) (d : Bytes)
      (f g : Text → Text) {B : Type 0} (k : Action B)
      → ws p ≡ some es
      → (on_error f (create_raw p name header) >> (on_error g (write_entry p d) >> k))
          (quiet fs ws n rs)
        ≡ k (
            quiet fs
              (update ws p
                (some (es ++ (record { name = name; header = header; content = d } ∷ []))))
              n
              rs)
  add_entry-quiet ws es name header d f g k h =
      let e : Entry = record { name = name; header = header; content = [] } in
      let ws' : Text → Option (List Entry) = update ws p (some (es ++ (e ∷ []))) in
      rw (create_raw-quiet fs ws n rs p es name header h)
        (rw (write_entry-quiet fs ws' n rs p es e d (update_self ws p _)) (rw update-update))

  pub replicate_zip-quiet :
      (es : List Entry) (ws : Text → Option (List Entry)) (base : List Entry)
      → ws p ≡ some base
      → replicate_zip es p (quiet fs ws n rs)
        ≡ (ok tt, quiet fs (update ws p (some (base ++ es))) n rs)
  unfolding replicate_zip system_call
  replicate_zip-quiet [] ws base h = rw (append-nil, update_same ws p _ h)
  replicate_zip-quiet (e ∷ es) ws base h =
      add_entry-quiet ws base e.name e.header e.content _ _ (replicate_zip es p) h
      ∙ replicate_zip-quiet es _ (base ++ (e ∷ [])) (update_self ws p _)
      ∙ rw (update-update, append_assoc)

-- The file that `writeMetadata` adds.
abbrev pub metadata_entry : Bytes → Entry
metadata_entry bytes = record { name = metadata_name; header = 0; content = bytes }

module _ (fs : Files) (n : ℕ) (rs : List Request) (env : Env) (m : Metadata) (bytes : Bytes) where
  pub write_metadata-quiet :
      (p : Text) (ws : Text → Option (List Entry)) (es : List Entry)
      → env.marshal_indent m ≡ done bytes
      → ws p ≡ some es
      → write_metadata env m p (quiet fs ws n rs)
        ≡ (ok tt, quiet fs (update ws p (some (es ++ (metadata_entry bytes ∷ [])))) n rs)
  unfolding write_metadata create_entry
  write_metadata-quiet p ws es marshals h =
      let e : Entry = metadata_entry [] in
      let ws' : Text → Option (List Entry) = update ws p (some (es ++ (e ∷ []))) in
      rw (create_raw-quiet fs ws n rs p es metadata_name 0 h, marshals)
        (rw (write_entry-quiet fs ws' n rs p es e bytes (update_self ws p _)) (rw update-update))

  pub copy_and_patch-quiet :
      (p : Text) (ws : Text → Option (List Entry)) (es : List Entry)
      → env.marshal_indent m ≡ done bytes
      → ws p ≡ some []
      → copy_and_patch env m es p (quiet fs ws n rs)
        ≡ (ok tt, quiet fs (update ws p (some (es ++ (metadata_entry bytes ∷ [])))) n rs)
  unfolding copy_and_patch
  copy_and_patch-quiet p ws es marshals h = rw (replicate_zip-quiet fs n rs p es ws [] h) (
      rw (write_metadata-quiet p (update ws p (some es)) es marshals (update_self ws p _))
        (rw update-update))

module _ (fs : Files) (n : ℕ) (rs : List Request) (env : Env) (m : Metadata) (bytes : Bytes) where
  -- If no system call fails, the source is an archive and the metadata can be written as a plist,
  -- `ApplyPatches` writes that archive with the metadata file behind it to the destination, and no
  -- other file changes.
  pub apply_patches-quiet :
      (src dst : Text) (ws : Text → Option (List Entry)) (es : List Entry)
      → fs src ≡ some (archive es)
      → env.marshal_indent m ≡ done bytes
      → apply_patches env m src dst (quiet fs ws n rs) ≡ (
        ok tt,
        quiet
            (update fs dst (some (archive (es ++ (metadata_entry bytes ∷ [])))))
            (update ws dst none)
            n
            rs,
      )
  unfolding apply_patches new_writer
  apply_patches-quiet src dst ws es there marshals =
      let fs' : Files = update fs dst (some (plain [])) in
      let ws' : Text → Option (List Entry) = update ws dst (some []) in
      let all : List Entry = es ++ (metadata_entry bytes ∷ []) in
      rw (open_reader-quiet fs ws n rs src es there, create-quiet fs ws n rs dst)
        (rw (copy_and_patch-quiet fs' n rs env m bytes dst ws' es marshals (update_self ws dst _)) (
          rw
            (close_writer-quiet fs' (update ws' dst (some all)) n rs dst all
              (update_self ws' dst _))
            (simp update-update)))
