-- ===== src/Tests/Downloads.antt =====
-- The package of the store's app, downloaded and sealed.
use ipaversion.Base.{ℕ, ◌≡◌, refl, inl, inr, true, false, some, none, List, [], ◌∷◌, ◌++◌}
use ipaversion.Base.Int.{pos}
use ipaversion.Base.Text.{
  Text, codes, text_eq, contains, has_prefix, has_suffix, trim_suffix, base_name, text_is_empty,
  atoi,
}
use ipaversion.Outcome.{ok, panic, index_out_of_range}
use ipaversion.Plist.{Sinf}
use ipaversion.World.{
  World, Entry, archive, plain, update, system_call, open_reader, create, new_writer, create_raw,
  create_entry, write_entry, append_data,
}
use ipaversion.World.Quiet.{quiet}
use ipaversion.Package.{
  read_bundle_name, first_entry, info_path, replicate_sinf, fill_package, replicate_zip,
  read_info_plist, read_manifest_plist, read_plist, replicate_sinf_by, replicate_sinf_from_info,
  first_content,
}
use ipaversion.Package.Quiet.{metadata_entry}
use ipaversion.Package.Seal.{Needs, by_info, sinf_entry, replicate_sinf-quiet}
use ipaversion.Package.Atomic.{IsReplaced, replicate_sinf-IsReplaced}
use ipaversion.Package.Safe.{replicate_sinf-panic}
use ipaversion.Download.{download_app}
use ipaversion.Download.Complete.{Serves, download_request, downloaded, download_app_complete}
use ipaversion.Download.Packaged.{IsDownloaded, download_app-Yields}
use ipaversion.World.Yields.{Yields}
use ipaversion.Download.Frame.{download_app-Keeps}
use ipaversion.Tests.Fixtures.{
  disk_full, store, serve_store, notes, item, ipa, reply, no_files, empty_world,
}

abbrev pub patched : List Entry
patched = ipa ++ (metadata_entry (codes "metadata") ∷ [])

abbrev pub seal : List Entry
seal = sinf_entry (info_path (codes "Notes") (codes "Notes")) (5 ∷ []) ∷ []

pub ipa-Needs : Needs store item.sinfs patched seal
unfolding read_bundle_name first_entry contains has_prefix has_suffix trim_suffix base_name
    text_is_empty text_eq
ipa-Needs =
    by_info
      {i = record {
        name = codes "Payload/Notes.app/Info.plist";
        header = 1;
        content = codes "info";
      }}
      refl refl refl refl refl

pub store-Serves : (n : ℕ) (agent : Text) → Serves store n item.url agent ipa
unfolding serve_store atoi text_eq
store-Serves n agent = record {
  response = reply (archive ipa);
  total = pos 12;
  valid = refl;
  answered = refl;
  sized = refl;
  status_ok = refl;
  sent_archive = refl;
}

download_app_complete_example : download_app store notes [] true empty_world ≡ (
  ok (codes "Notes 1.2.ipa", false),
  quiet
      (downloaded no_files (codes "Notes 1.2.ipa") (patched ++ seal))
      (update (update (λ p. none) (codes "Notes 1.2.ipa") none) (codes "Notes 1.2.ipa.tmp") none)
      1
      (download_request item.url [] ∷ []),
)
download_app_complete_example =
    download_app_complete no_files (λ p. none) 0 [] store notes [] true ipa seal (codes "metadata")
      (inl refl) (store-Serves 0 []) refl ipa-Needs

replicate_sinf-quiet_example :
    replicate_sinf store item.sinfs
      (codes "a")
      (quiet (λ p. some (archive patched)) (λ p. none) 0 [])
    ≡ (
      ok tt,
      quiet
          (update
            (update (λ p. some (archive patched)) (codes "a.tmp") none)
            (codes "a")
            (some (archive (patched ++ seal))))
          (update (λ p. none) (codes "a.tmp") none)
          0
          [],
    )
replicate_sinf-quiet_example =
    replicate_sinf-quiet (λ p. some (archive patched)) 0 [] (codes "a") store item.sinfs (λ p. none)
      patched seal refl ipa-Needs

-- A package without a manifest and an item without sinfs.
no_sinfs_panics :
    (replicate_sinf store [] (codes "a") (quiet (λ p. some (archive ipa)) (λ p. none) 0 [])).0
    ≡ panic index_out_of_range
unfolding replicate_sinf fill_package replicate_zip read_bundle_name first_entry contains has_prefix
    has_suffix trim_suffix base_name text_is_empty text_eq read_info_plist read_manifest_plist
    read_plist replicate_sinf_by replicate_sinf_from_info first_content system_call open_reader
    create new_writer create_raw create_entry write_entry append_data
no_sinfs_panics = refl

replicate_sinf-panic_example :
    (◌≡◌ {A = List Sinf} [] []) × (index_out_of_range ≡ index_out_of_range)
replicate_sinf-panic_example =
    replicate_sinf-panic store [] (codes "a") index_out_of_range
      (quiet (λ p. some (archive ipa)) (λ p. none) 0 []) no_sinfs_panics

-- The second system call fails, and the file of another app stays.
abbrev broken_world : World
broken_world = record {
  files = λ q. some (plain q);
  writers = λ q. none;
  faults = none ∷ (some disk_full ∷ []);
  calls = 0;
  sent = [];
}

download_app-Keeps_example :
    (download_app store notes [] false broken_world).1.files (codes "Mail 1.0.ipa")
    ≡ some (plain (codes "Mail 1.0.ipa"))
unfolding text_eq
download_app-Keeps_example =
    download_app-Keeps (codes "Mail 1.0.ipa") store notes [] false broken_world refl refl refl

-- The fifth system call fails: the archive is not filled, and the package stays.
abbrev full_disk : World
full_disk = record {
  files = λ q. some (archive patched);
  writers = λ q. none;
  faults = none ∷ (none ∷ (none ∷ (none ∷ (some disk_full ∷ []))));
  calls = 0;
  sent = [];
}

replicate_sinf-IsReplaced_example :
    IsReplaced (codes "a") patched (replicate_sinf store item.sinfs (codes "a") full_disk)
replicate_sinf-IsReplaced_example =
    replicate_sinf-IsReplaced (codes "a") patched store item.sinfs full_disk refl

download_app-Yields_example :
    Yields (IsDownloaded store 0 notes []) (download_app store notes [] false empty_world)
download_app-Yields_example = download_app-Yields store 0 notes [] false empty_world refl (inr refl)
