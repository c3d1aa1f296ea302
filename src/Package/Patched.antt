-- ===== src/Package/Patched.antt =====
-- What `ApplyPatches` leaves at its destination when it returns no error, and what `ReplicateSinf`
-- then needs, whatever the system calls do.
use ipaversion.Base.{◌≡◌, ◌⊎◌, inl, inr, none, some, List, [], ◌∷◌, ◌++◌, arith}
use ipaversion.Base.Text.{Text, Bytes}
use ipaversion.Outcome.{Outcome, ok, err, panic, Result, done, outcome}
use ipaversion.Plist.{Metadata, Sinf}
use ipaversion.World.{
  Env, World, Entry, Content, archive, unfinished, update_self, create, create_entry, create_raw,
  write_entry, new_writer, close_writer, open_reader, lift,
}
use ipaversion.World.Post.{Post-map, Holds, create_raw-Post, write_entry-Post, close_writer-files}
use ipaversion.World.Yields.{
  Yields, step-Yields, with_message-Yields, cleaned-Yields, Post-Yields, lift-Yields,
  open_reader-Yields, create-Yields,
}
use ipaversion.Package.Metadata.{
  replicate_zip, metadata_name, write_metadata, copy_and_patch, apply_patches,
}
use ipaversion.Package.Sinf.{tmp_path, replicate_sinf}
use ipaversion.Package.Quiet.{metadata_entry}
use ipaversion.Package.Filled.{replicate_zip-Post}
use ipaversion.Package.Atomic.{IsGrown, IsReplaced, replicate_sinf-IsReplaced}

pub outcome-eq-ok : {A : Type 0} {a : A} (r : Result A) → outcome r ≡ ok a → r ≡ done a
outcome-eq-ok r h = ground arith

module _ (env : Env) (m : Metadata) (p : Text) where
  -- The writer holds these files and the metadata behind them.
  abbrev HoldsPatched : List Entry → World → Type 0
  HoldsPatched es w =
      (bytes : Bytes) × (env.marshal_indent m ≡ done bytes)
      × Holds p (es ++ (metadata_entry bytes ∷ [])) w

  write_metadata-Yields :
      (es : List Entry) (w : World)
      → Holds p es w
      → Yields (λ _. HoldsPatched es) (write_metadata env m p w)
  unfolding write_metadata create_entry
  write_metadata-Yields es w h =
      let e : Entry = record { name = metadata_name; header = 0; content = [] } in
      let Q = Holds p (es ++ (e ∷ [])) in
      step-Yields (λ _. Q) (λ _. HoldsPatched es) _ (create_raw p metadata_name 0 w) _
        (Post-Yields Q (create_raw p metadata_name 0 w) (create_raw-Post p es metadata_name 0 w h))
        λ _ v k.
          step-Yields (λ bytes u. (outcome (env.marshal_indent m) ≡ ok bytes) × Q u)
            (λ _. HoldsPatched es) _ (lift (outcome (env.marshal_indent m)) v) _
            (lift-Yields Q (outcome (env.marshal_indent m)) v k)
            λ bytes u (marshals, j).
              with_message-Yields (λ _. HoldsPatched es) _ (write_entry p bytes u)
                (Post-Yields (HoldsPatched es) (write_entry p bytes u) (
                  Post-map (Holds p (es ++ (metadata_entry bytes ∷ []))) (HoldsPatched es)
                    (λ t g. (bytes, outcome-eq-ok (env.marshal_indent m) marshals, g))
                    (write_entry p bytes u) (write_entry-Post p es e bytes u j)))

  copy_and_patch-Yields :
      (es : List Entry) (w : World)
      → Holds p [] w
      → Yields (λ _. HoldsPatched es) (copy_and_patch env m es p w)
  unfolding copy_and_patch
  copy_and_patch-Yields es w h =
      step-Yields (λ _. Holds p es) (λ _. HoldsPatched es) _ (replicate_zip es p w) _
        (Post-Yields (Holds p es) (replicate_zip es p w) (replicate_zip-Post p es [] w h))
        λ _ v k.
          with_message-Yields (λ _. HoldsPatched es) _ (write_metadata env m p v)
            (write_metadata-Yields es v k)

  -- The destination has the source's files and the metadata behind them, as an archive or as the
  -- file of a writer whose close failed.
  abbrev pub IsPatched : Content → World → Type 0
  IsPatched c v =
      (es : List Entry) × (bytes : Bytes) × (c ≡ archive es)
      × (env.marshal_indent m ≡ done bytes)
      × let all = es ++ (metadata_entry bytes ∷ []) in
        ((v.files p ≡ some (archive all)) ⊎ (v.files p ≡ some (unfinished all)))

  closed-IsPatched :
      (es : List Entry) (c : Content) (w : World)
      → c ≡ archive es
      → HoldsPatched es w
      → IsPatched c (close_writer p w).1
  closed-IsPatched es c w at (bytes, marshals, h) =
      (es, bytes, at, marshals, (close_writer-files p (es ++ (metadata_entry bytes ∷ [])) w h).1)

  pub apply_patches-Yields :
      (src : Text) (c : Content) (w : World)
      → w.files src ≡ some c
      → Yields (λ _. IsPatched c) (apply_patches env m src p w)
  unfolding apply_patches new_writer
  apply_patches-Yields src c w there =
      step-Yields (λ es v. (w.files src ≡ some (archive es)) × (v.files src ≡ some (archive es)))
        (λ _. IsPatched c) _ (open_reader src w) _ (open_reader-Yields src w)
        λ es w1 (sent, _).
          step-Yields (λ _ v. v.calls ≡ w1.calls) (λ _. IsPatched c) _ (create p w1) _
            (create-Yields p w1)
            λ _ w2 _.
              (let w3 = (new_writer p w2).1 in
                cleaned-Yields (λ _. HoldsPatched es) (λ _. IsPatched c) (close_writer p)
                  (copy_and_patch env m es p w3)
                  (copy_and_patch-Yields es w3 (update_self w2.writers p (some [])))
                  λ _ v k. closed-IsPatched es c v (let q = there in cc) k)

module _ (env : Env) (sinfs : List Sinf) (path : Text) (all : List Entry) where
  -- The path has these files with more behind them, and the temporary file is gone.
  abbrev pub IsSealed : World → Type 0
  IsSealed v =
      (new : Content) × IsGrown all new
      × (v.files path ≡ some new)
      × (v.files (tmp_path path) ≡ none)

  replaced : (r : Outcome (Unit {0}) × World) → IsReplaced path all r → Yields (λ _. IsSealed) r
  replaced (ok a, v) (new, grown, moved) = (new, grown, moved.0, moved.1)
  replaced (err e, v) h = tt
  replaced (panic p, v) h = tt

  unfinished_refused :
      (w : World)
      → w.files path ≡ some (unfinished all)
      → Yields (λ _. IsSealed) (replicate_sinf env sinfs path w)
  unfolding replicate_sinf
  unfinished_refused w begun =
      step-Yields (λ es v. (w.files path ≡ some (archive es)) × (v.files path ≡ some (archive es)))
        (λ _. IsSealed) _ (open_reader path w) _ (open_reader-Yields path w)
        λ es w1 (sent, _). absurd (let q = begun in cc)

  -- An archive is replaced, and what a writer left that was not closed is refused.
  pub replicate_sinf-Yields :
      (w : World)
      → (w.files path ≡ some (archive all)) ⊎ (w.files path ≡ some (unfinished all))
      → Yields (λ _. IsSealed) (replicate_sinf env sinfs path w)
  replicate_sinf-Yields w (inl there) =
      replaced (replicate_sinf env sinfs path w)
        (replicate_sinf-IsReplaced path all env sinfs w there)
  replicate_sinf-Yields w (inr begun) = unfinished_refused w begun
