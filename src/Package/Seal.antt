-- ===== src/Package/Seal.antt =====
-- What `ReplicateSinf` leaves on the disk when no system call fails.
use mathlib.Core.Path.{fun_ext}
use ipaversion.Base.{
  ℕ, ◌≡◌, ◌∙◌, Option, none, some, List, [], ◌∷◌, ◌++◌, append-nil, append_assoc, length, arith,
}
use ipaversion.Base.Text.{Text, Bytes}
use ipaversion.Outcome.{ok, done, Result}
use ipaversion.Plist.{Sinf, PackageManifest, PackageInfo}
use ipaversion.World.{
  Env, Request, Entry, Content, plain, archive, Files, update, update_self, update_ne, create_entry,
  new_writer, text_eq-append_ne, text_eq-append_ne_left,
}
use ipaversion.World.Quiet.{
  quiet, update-update, update_same, create-quiet, open_reader-quiet, create_raw-quiet,
  write_entry-quiet, close_writer-quiet, close_writer_closed, remove-quiet, rename-quiet,
}
use ipaversion.Package.Read.{
  first_entry, is_info, is_manifest, read_plist, read_info_plist, read_manifest_plist,
  read_bundle_name,
}
use ipaversion.Package.Sinf.{
  Pair, pairs, manifest_path, info_path, write_sinfs, replicate_sinf_from_manifest,
  replicate_sinf_from_info, replicate_sinf_by, fill_package, swap_package, tmp_path, replicate_sinf,
}
use ipaversion.Package.Pairs.{zip-pairs}
use ipaversion.Package.Quiet.{add_entry-quiet, replicate_zip-quiet}

-- The files that go to the paths of a manifest, one for each.
abbrev pub sinf_entry : Text → Bytes → Entry
sinf_entry path content = record { name = path; header = 0; content = content }

abbrev pub manifest_entries : Text → List (Pair Sinf Text) → List Entry
manifest_entries bundle [] = []
manifest_entries bundle (p ∷ ps) =
    sinf_entry (manifest_path bundle p.second) p.first.content ∷ manifest_entries bundle ps

-- The files that a package with the entries `es` needs, by its manifest if it has one and by its
-- Info.plist if not.
pub data Needs (env : Env) (sinfs : List Sinf) (es : List Entry) : List Entry → Type 0 where
  by_manifest :
      {bundle : Text} {e i : Entry} {manifest : PackageManifest} {info : PackageInfo}
      → read_bundle_name es ≡ ok bundle
      → first_entry is_manifest es ≡ some e
      → env.unmarshal_manifest e.content ≡ done manifest
      → first_entry is_info es ≡ some i
      → env.unmarshal_info i.content ≡ done info
      → length sinfs ≡ length manifest.sinf_paths
      → Needs env sinfs es (manifest_entries bundle (pairs sinfs manifest.sinf_paths))
  by_info :
      {bundle : Text} {i : Entry} {info : PackageInfo} {s : Sinf} {ss : List Sinf}
      → read_bundle_name es ≡ ok bundle
      → first_entry is_manifest es ≡ none
      → first_entry is_info es ≡ some i
      → env.unmarshal_info i.content ≡ done info
      → sinfs ≡ s ∷ ss
      → Needs env sinfs es (sinf_entry (info_path bundle info.bundle_executable) s.content ∷ [])

module _ (fs : Files) (n : ℕ) (rs : List Request) where
  write_sinfs-quiet :
      (p bundle : Text) (ps : List (Pair Sinf Text)) (ws : Text → Option (List Entry))
      (base : List Entry)
      → ws p ≡ some base
      → write_sinfs p bundle ps (quiet fs ws n rs)
        ≡ (ok tt, quiet fs (update ws p (some (base ++ manifest_entries bundle ps))) n rs)
  unfolding write_sinfs create_entry
  write_sinfs-quiet p bundle [] ws base h = rw (append-nil, update_same ws p _ h)
  write_sinfs-quiet p bundle (q ∷ ps) ws base h =
      add_entry-quiet fs n rs p ws base (manifest_path bundle q.second) 0 q.first.content _ _
        (write_sinfs p bundle ps) h
      ∙ write_sinfs-quiet p bundle ps _ _ (update_self ws p _)
      ∙ rw (update-update, append_assoc)

  read_plist-quiet :
      {A : Type 0} (unmarshal : Bytes → Result A) (e : Entry) (a : A)
      (ws : Text → Option (List Entry))
      → unmarshal e.content ≡ done a
      → read_plist unmarshal (some e) (quiet fs ws n rs) ≡ (ok (some a), quiet fs ws n rs)
  unfolding read_plist
  read_plist-quiet unmarshal e a ws h = rw h

  replicate_sinf_from_manifest-quiet :
      (manifest : PackageManifest) (p : Text) (sinfs : List Sinf) (bundle : Text)
      (ws : Text → Option (List Entry)) (base : List Entry)
      → length sinfs ≡ length manifest.sinf_paths
      → ws p ≡ some base
      → replicate_sinf_from_manifest manifest p sinfs bundle (quiet fs ws n rs) ≡ (
        ok tt,
        quiet fs
            (update ws p (some (base ++ manifest_entries bundle (pairs sinfs manifest.sinf_paths))))
            n
            rs,
      )
  unfolding replicate_sinf_from_manifest
  replicate_sinf_from_manifest-quiet manifest p sinfs bundle ws base l h =
      rw (zip-pairs sinfs manifest.sinf_paths l) (write_sinfs-quiet p bundle _ ws base h)

  replicate_sinf_from_info-quiet :
      (info : PackageInfo) (p : Text) (s : Sinf) (ss : List Sinf) (bundle : Text)
      (ws : Text → Option (List Entry)) (base : List Entry)
      → ws p ≡ some base
      → replicate_sinf_from_info info p (s ∷ ss) bundle (quiet fs ws n rs) ≡ (
        ok tt,
        quiet fs
            (update ws p (
              some (base ++ (sinf_entry (info_path bundle info.bundle_executable) s.content ∷ []))))
            n
            rs,
      )
  unfolding replicate_sinf_from_info create_entry
  replicate_sinf_from_info-quiet info p s ss bundle ws base h =
      let path : Text = info_path bundle info.bundle_executable in
      let ws' : Text → Option (List Entry) =
        update ws p (some (base ++ (sinf_entry path [] ∷ []))) in
      rw (create_raw-quiet fs ws n rs p base path 0 h) (
        rw
          (write_entry-quiet fs ws' n rs p base (sinf_entry path []) s.content (update_self ws p _))
          (rw update-update))

  fill_package-quiet :
      (env : Env) (sinfs : List Sinf) (p : Text) (es extra : List Entry)
      (ws : Text → Option (List Entry))
      → Needs env sinfs es extra
      → ws p ≡ some []
      → fill_package env sinfs es p (quiet fs ws n rs)
        ≡ (ok tt, quiet fs (update ws p (some (es ++ extra))) n rs)
  unfolding fill_package read_info_plist read_manifest_plist replicate_sinf_by create_entry
  fill_package-quiet env sinfs p es _ ws
        (by_manifest {bundle} {e} {i} {manifest} {info} b m m' i' j l) h =
      let ws' : Text → Option (List Entry) = update ws p (some es) in
      rw (replicate_zip-quiet fs n rs p es ws [] h, b, m)
        (rw (read_plist-quiet env.unmarshal_manifest e manifest ws' m', i')
          (rw (read_plist-quiet env.unmarshal_info i info ws' j) (
            rw
              (replicate_sinf_from_manifest-quiet manifest p sinfs bundle ws' es l
                (update_self ws p _))
              (rw update-update))))
  fill_package-quiet env sinfs p es _ ws (by_info {bundle} {i} {info} {s} {ss} b m i' j l) h =
      let ws' : Text → Option (List Entry) = update ws p (some es) in
      rw (replicate_zip-quiet fs n rs p es ws [] h, b, m, i', l)
        (rw (read_plist-quiet env.unmarshal_info i info ws' j) (
          rw (replicate_sinf_from_info-quiet info p s ss bundle ws' es (update_self ws p _))
            (rw update-update)))

-- The swap of the archives leaves no temporary file.
files_swapped :
    (fs : Files) (tmp path : Text) (c : Content)
    → update (update (update (update fs tmp (some c)) path none) tmp none) path (some c)
      ≡ update (update fs tmp none) path (some c)
files_swapped fs tmp path c = fun_ext λ q. ground arith

module _ (fs : Files) (n : ℕ) (rs : List Request) (path : Text) where
  swap_package-quiet :
      (ws : Text → Option (List Entry)) (es : List Entry) (c d : Content)
      → ws (tmp_path path) ≡ some es
      → fs path ≡ some d
      → swap_package (tmp_path path) path (quiet fs ws n rs) ≡ (
        ok tt,
        quiet
            (update
              (update
                (update (update fs (tmp_path path) (some (archive es))) path none)
                (tmp_path path)
                none)
              path
              (some (archive es)))
            (update ws (tmp_path path) none)
            n
            rs,
      )
  unfolding swap_package
  swap_package-quiet ws es c d h there =
      let tmp : Text = tmp_path path in
      let fs1 : Files = update fs tmp (some (archive es)) in
      let ws1 : Text → Option (List Entry) = update ws tmp none in
      let at_path : fs1 path ≡ some d =
        update_ne fs tmp path _ (text_eq-append_ne_left path _ _) ∙ there in
      let at_tmp : update fs1 path none tmp ≡ some (archive es) =
        update_ne fs1 path tmp none (text_eq-append_ne path _ _) ∙ update_self fs tmp _ in
      rw (close_writer-quiet fs ws n rs tmp es h) (
        rw (remove-quiet fs1 ws1 n rs path d at_path)
          (rw (rename-quiet (update fs1 path none) ws1 n rs tmp path _ at_tmp)))

module _ (fs : Files) (n : ℕ) (rs : List Request) (path : Text) where
  -- If no system call fails, the package is an archive and its manifest, or without one its
  -- Info.plist, says where the sinfs go, `ReplicateSinf` replaces the package by one with the same
  -- files and the sinfs behind them; the temporary file is gone and no other file changes.
  pub replicate_sinf-quiet :
      (env : Env) (sinfs : List Sinf) (ws : Text → Option (List Entry)) (es extra : List Entry)
      → fs path ≡ some (archive es)
      → Needs env sinfs es extra
      → replicate_sinf env sinfs path (quiet fs ws n rs) ≡ (
        ok tt,
        quiet
            (update (update fs (tmp_path path) none) path (some (archive (es ++ extra))))
            (update ws (tmp_path path) none)
            n
            rs,
      )
  unfolding replicate_sinf new_writer
  replicate_sinf-quiet env sinfs ws es extra there needs =
      let tmp : Text = tmp_path path in
      let fs' : Files = update fs tmp (some (plain [])) in
      let ws' : Text → Option (List Entry) = update ws tmp (some []) in
      let all : List Entry = es ++ extra in
      let c : Content = archive all in
      let ws'' : Text → Option (List Entry) = update ws' tmp (some all) in
      let fs'' : Files =
        update (update (update (update fs' tmp (some c)) path none) tmp none) path (some c) in
      let at_path : fs' path ≡ some (archive es) =
        update_ne fs tmp path _ (text_eq-append_ne_left path _ _) ∙ there in
      rw (open_reader-quiet fs ws n rs path es there, create-quiet fs ws n rs tmp)
        (rw (fill_package-quiet fs' n rs env sinfs tmp es extra ws' needs (update_self ws tmp _)) (
          rw
            (swap_package-quiet fs' n rs path ws'' all c (archive es) (update_self ws' tmp _)
              at_path)
            (rw (close_writer_closed fs'' (update ws'' tmp none) n rs tmp (update_self ws'' tmp _))
              (simp (update-update, files_swapped fs tmp path c)))))
