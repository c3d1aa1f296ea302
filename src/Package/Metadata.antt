-- ===== src/Package/Metadata.antt =====
-- `replicateZip`, `writeMetadata` and `ApplyPatches`.
use ipaversion.Base.{List, [], ◌∷◌}
use ipaversion.Base.Text.{Text, codes}
use ipaversion.Outcome.{outcome, wrap_message}
use ipaversion.Plist.{Metadata}
use ipaversion.World.{
  Env, Action, ◌>>=◌, ◌>>◌, pure, lift, on_error, deferring, Entry, system_call, create,
  open_reader, new_writer, create_raw, create_entry, write_entry, close_writer,
}

-- `replicateZip` copies each file in its raw form.
unfoldable pub replicate_zip : List Entry → Text → Action (Unit {0})
replicate_zip [] dst = pure tt
replicate_zip (e ∷ es) dst = do
  on_error (wrap_message (codes "failed to open raw file: ")) system_call
  on_error (wrap_message (codes "failed to create raw file: ")) (create_raw dst e.name e.header)
  on_error (wrap_message (codes "failed to copy file: ")) (write_entry dst e.content)
  replicate_zip es dst

abbrev pub metadata_name : Text
metadata_name = codes "iTunesMetadata.plist"

unfoldable pub write_metadata : Env → Metadata → Text → Action (Unit {0})
write_metadata env metadata dst = do
  on_error (wrap_message (codes "failed to create file: ")) (create_entry dst metadata_name)
  bytes ←
      on_error (wrap_message (codes "failed to marshal data: "))
        (lift (outcome (env.marshal_indent metadata)))
  on_error (wrap_message (codes "failed to write data: ")) (write_entry dst bytes)

-- What runs once the writer of `dst` is open.
unfoldable pub copy_and_patch : Env → Metadata → List Entry → Text → Action (Unit {0})
copy_and_patch env metadata es dst = do
  on_error (wrap_message (codes "failed to replicate zip: ")) (replicate_zip es dst)
  on_error (wrap_message (codes "failed to write metadata: ")) (write_metadata env metadata dst)

-- `ApplyPatches`
unfoldable pub apply_patches : Env → Metadata → Text → Text → Action (Unit {0})
apply_patches env metadata src dst = do
  es ← on_error (wrap_message (codes "failed to open zip reader: ")) (open_reader src)
  on_error (wrap_message (codes "failed to open file: ")) (create dst)
  new_writer dst
  deferring (close_writer dst) (copy_and_patch env metadata es dst)
