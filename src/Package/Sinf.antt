-- ===== src/Package/Sinf.antt =====
-- `Zip`, `replicateSinfFromManifest`, `replicateSinfFromInfo` and `ReplicateSinf`.
use ipaversion.Base.{Option, none, some, List, [], ◌∷◌, ◌++◌, length, ◌==◌, if◌then◌else◌}
use ipaversion.Base.Text.{Text, Bytes, codes}
use ipaversion.Outcome.{Outcome, ok, err, panic, wrap_message, nil_dereference, index_out_of_range}
use ipaversion.Plist.{Sinf, PackageManifest, PackageInfo}
use ipaversion.World.{
  Env, Action, ◌>>=◌, ◌>>◌, pure, lift, ignore, on_error, deferring, Entry, create, remove, rename,
  open_reader, new_writer, create_entry, write_entry, close_writer,
}
use ipaversion.Package.Read.{read_info_plist, read_manifest_plist, read_bundle_name}
use ipaversion.Package.Metadata.{replicate_zip}

pub record Pair {ℓ} (T U : Type ℓ) : Type ℓ where
  pub first : T
  pub second : U

-- The loop that fills `pairs`, for two slices of one length.
unfoldable pub pairs {ℓ} : {T U : Type ℓ} → List T → List U → List (Pair T U)
pairs [] us = []
pairs (t ∷ ts) [] = []
pairs (t ∷ ts) (u ∷ us) = record { first = t; second = u } ∷ pairs ts us

-- `Zip`
unfoldable pub zip {ℓ} : {T U : Type ℓ} → List T → List U → Outcome (List (Pair T U))
unfolding pairs
zip ts us =
    if length ts == length us then ok (pairs ts us) else err (codes "slices have different lengths")

abbrev pub manifest_path : Text → Text → Text
manifest_path bundle path = codes "Payload/" ++ (bundle ++ (codes ".app/" ++ path))

abbrev pub info_path : Text → Text → Text
info_path bundle executable =
    codes "Payload/" ++ (bundle ++ (codes ".app/SC_Info/" ++ (executable ++ codes ".sinf")))

unfoldable pub write_sinfs : Text → Text → List (Pair Sinf Text) → Action (Unit {0})
write_sinfs dst bundle [] = pure tt
write_sinfs dst bundle (p ∷ ps) = do
  on_error (wrap_message (codes "failed to create file: "))
      (create_entry dst (manifest_path bundle p.second))
  on_error (wrap_message (codes "failed to write data: ")) (write_entry dst p.first.content)
  write_sinfs dst bundle ps

unfoldable pub replicate_sinf_from_manifest :
    PackageManifest → Text → List Sinf → Text → Action (Unit {0})
unfolding write_sinfs zip
replicate_sinf_from_manifest manifest dst sinfs bundle = do
  zipped ←
      on_error (wrap_message (codes "failed to zip sinfs: ")) (lift (zip sinfs manifest.sinf_paths))
  write_sinfs dst bundle zipped

-- `sinfs[0].Data`
unfoldable pub first_content : List Sinf → Outcome Bytes
first_content [] = panic index_out_of_range
first_content (s ∷ ss) = ok s.content

unfoldable pub replicate_sinf_from_info : PackageInfo → Text → List Sinf → Text → Action (Unit {0})
unfolding first_content
replicate_sinf_from_info info dst sinfs bundle = do
  on_error (wrap_message (codes "failed to create file: "))
      (create_entry dst (info_path bundle info.bundle_executable))
  bytes ← lift (first_content sinfs)
  on_error (wrap_message (codes "failed to write data: ")) (write_entry dst bytes)

-- The choice between the two; `*info` panics where `info` is nil.
unfoldable pub replicate_sinf_by :
    Option PackageManifest → Option PackageInfo → Text → List Sinf → Text → Action (Unit {0})
unfolding replicate_sinf_from_manifest replicate_sinf_from_info
replicate_sinf_by (some manifest) info dst sinfs bundle =
    replicate_sinf_from_manifest manifest dst sinfs bundle
replicate_sinf_by none (some info) dst sinfs bundle = replicate_sinf_from_info info dst sinfs bundle
replicate_sinf_by none none dst sinfs bundle = lift (panic nil_dereference)

-- What is written to the temporary archive, up to the close of its writer.
unfoldable pub fill_package : Env → List Sinf → List Entry → Text → Action (Unit {0})
fill_package env sinfs es tmp = do
  on_error (wrap_message (codes "failed to replicate zip: ")) (replicate_zip es tmp)
  bundle ←
      on_error (wrap_message (codes "failed to read bundle name: ")) (lift (read_bundle_name es))
  manifest ←
      on_error (wrap_message (codes "failed to read manifest plist: ")) (read_manifest_plist env es)
  info ← on_error (wrap_message (codes "failed to read info plist: ")) (read_info_plist env es)
  on_error (wrap_message (codes "failed to replicate sinf: "))
      (replicate_sinf_by manifest info tmp sinfs bundle)

-- The writer is closed, its error dropped, and the new archive takes the place of the old one.
unfoldable pub swap_package : Text → Text → Action (Unit {0})
swap_package tmp path = do
  ignore (close_writer tmp)
  on_error (wrap_message (codes "failed to remove original file: ")) (remove path)
  on_error (wrap_message (codes "failed to rename the tmp file: ")) (rename tmp path)

abbrev pub tmp_path : Text → Text
tmp_path path = path ++ codes ".tmp"

-- `ReplicateSinf`
unfoldable pub replicate_sinf : Env → List Sinf → Text → Action (Unit {0})
replicate_sinf env sinfs path = do
  es ← on_error (λ _. codes "failed to open zip reader") (open_reader path)
  let tmp = tmp_path path
  on_error (wrap_message (codes "failed to open file: ")) (create tmp)
  new_writer tmp
  deferring (close_writer tmp) (fill_package env sinfs es tmp >> swap_package tmp path)
