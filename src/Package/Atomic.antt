-- ===== src/Package/Atomic.antt =====
-- What `ReplicateSinf` leaves at the package's path and at that of its temporary file, whatever
-- fails: the package as it was, the package that was written in its place, or, when the rename
-- failed, no package and the written one under the temporary name.
use ipaversion.Base.{
  ◌≡◌, ◌≢◌, ◌⊎◌, append-nil, inl, inr, refl, ◌∙◌, none, some, List, [], ◌++◌, false, arith,
}
use ipaversion.Base.Text.{Text, text_eq, text_eq_refl}
use ipaversion.Outcome.{Outcome, ok, err, panic}
use ipaversion.Plist.{Sinf}
use ipaversion.World.{
  Env, World, Action, Entry, Content, archive, unfinished, update_self, cleaned, after, on_error,
  with_message, create, remove, rename, open_reader, new_writer, close_writer, ◌>>◌,
  text_eq-append_ne, text_eq-append_ne_left,
}
use ipaversion.World.Post.{Post, close_writer-files}
use ipaversion.World.Ends.{Ends, Anything, create-Ends}
use ipaversion.World.Frame.{close_writer-Keeps, open_reader-Keeps, create-Keeps}
use ipaversion.Package.Frame.{fill_package-Keeps}
use ipaversion.Package.Filled.{More, fill_package-Post}
use ipaversion.Package.Sinf.{fill_package, swap_package, tmp_path, replicate_sinf}

-- The old files with more behind them, as an archive or as the file of a writer whose close failed.
abbrev pub IsGrown : List Entry → Content → Type 0
IsGrown es c = (more : List Entry) × ((c ≡ archive (es ++ more)) ⊎ (c ≡ unfinished (es ++ more)))

-- How a call may end that is to put `new` in the place of `old`, with `tmp` as temporary file.
abbrev pub IsMoved : Text → Text → Content → Content → Outcome (Unit {0}) × World → Type 0
IsMoved tmp path old new (ok a, w) = (w.files path ≡ some new) × (w.files tmp ≡ none)
IsMoved tmp path old new (err e, w) =
    (w.files path ≡ some old) ⊎ ((w.files path ≡ none) × (w.files tmp ≡ some new))
IsMoved tmp path old new (panic m, w) = w.files path ≡ some old

module _ (tmp path : Text) (other : text_eq path tmp ≡ false) (other' : text_eq tmp path ≡ false)
    (old new : Content) where
  renamed :
      (f g : Text → Text) (w : World)
      → w.files tmp ≡ some new
      → w.files path ≡ some old
      → w.writers tmp ≡ none
      → IsMoved tmp path old new (
          cleaned (close_writer tmp) ((on_error f (remove path) >> on_error g (rename tmp path)) w))
  unfolding remove rename close_writer
  renamed f g w there here closed = ground (arith, text_eq_refl path, text_eq_refl tmp)

module _ (path : Text) (es : List Entry) where
  -- `ReplicateSinf` leaves the old package, or a new one with its files, or the new one beside it.
  abbrev pub IsReplaced : Outcome (Unit {0}) × World → Type 0
  IsReplaced r = (new : Content) × IsGrown es new × IsMoved (tmp_path path) path (archive es) new r

  untouched :
      (r : Outcome (Unit {0}) × World)
      → r.1.files path ≡ some (archive es)
      → ((a : Unit {0}) → r.0 ≢ ok a)
      → IsReplaced r
  untouched (ok a, w) h k = elim (k a refl) [ ]
  untouched (err e, w) h k = (archive es, ([], inl (rw append-nil)), inl h)
  untouched (panic m, w) h k = (archive es, ([], inl (rw append-nil)), h)

  tmp_ne : text_eq (tmp_path path) path ≡ false
  tmp_ne = text_eq-append_ne_left path _ _

  swap_package-IsReplaced :
      (w : World)
      → More (tmp_path path) es w
      → w.files path ≡ some (archive es)
      → IsReplaced (cleaned (close_writer (tmp_path path)) (swap_package (tmp_path path) path w))
  unfolding swap_package
  swap_package-IsReplaced w (more, h) old =
      let tmp = tmp_path path in
      let v = (close_writer tmp w).1 in
      let (closed, written) = close_writer-files tmp (es ++ more) w h in
      let kept = close_writer-Keeps path tmp tmp_ne w ∙ old in
      elim written [
        | inl k ↦ (
          archive (es ++ more),
          (more, inl refl),
          renamed tmp path (text_eq-append_ne path _ _) tmp_ne (archive es) (archive (es ++ more)) _
              _ v k kept closed,
        )
        | inr k ↦ (
          unfinished (es ++ more),
          (more, inr refl),
          renamed tmp path (text_eq-append_ne path _ _) tmp_ne (archive es)
              (unfinished (es ++ more)) _ _ v k kept closed,
        )
      ]

  filled :
      (r : Outcome (Unit {0}) × World)
      → Post (More (tmp_path path) es) r
      → r.1.files path ≡ some (archive es)
      → IsReplaced (
          cleaned (close_writer (tmp_path path)) (after r (λ _. swap_package (tmp_path path) path)))
  filled (ok a, w) h old = swap_package-IsReplaced w h old
  filled (err e, w) h old =
      untouched (err e, (close_writer (tmp_path path) w).1)
        (close_writer-Keeps path (tmp_path path) tmp_ne w ∙ old) (λ a q. cc)
  filled (panic m, w) h old =
      untouched (panic m, (close_writer (tmp_path path) w).1)
        (close_writer-Keeps path (tmp_path path) tmp_ne w ∙ old) (λ a q. cc)

  step-IsReplaced :
      {A : Type 0} (Q : A → Type 0) (g : Text → Text) (r : Outcome A × World)
      (f : A → Action (Unit {0}))
      → Ends Q (λ _. Unit {0}) r
      → r.1.files path ≡ some (archive es)
      → ((a : A) (v : World) → Q a → v.files path ≡ some (archive es) → IsReplaced (f a v))
      → IsReplaced (after (with_message g r) f)
  step-IsReplaced Q g (ok a, w) f q old k = k a w q old
  step-IsReplaced Q g (err e, w) f q old k = untouched (err (g e), w) old (λ a z. cc)
  step-IsReplaced Q g (panic m, w) f q old k = untouched (panic m, w) old (λ a z. cc)

  open_reader-Ends_with :
      (w : World)
      → w.files path ≡ some (archive es)
      → Ends (λ fs. fs ≡ es) (λ _. Unit {0}) (open_reader path w)
  unfolding open_reader
  open_reader-Ends_with w old = ground arith

  -- Whatever fails, `ReplicateSinf` on a package that is an archive of the files `es` leaves the
  -- package's path in one of three states. If it succeeds, the path holds these files in their
  -- order with more behind them, and the temporary file is gone; where the close of the writer
  -- failed, whose error is dropped, that file is one that was not finished. If it returns an error,
  -- the path holds the old package still, or, where the rename failed, nothing, and then the
  -- temporary file holds the new one. If it panics, the path holds the old package.
  pub replicate_sinf-IsReplaced :
      (env : Env) (sinfs : List Sinf) (w : World)
      → w.files path ≡ some (archive es)
      → IsReplaced (replicate_sinf env sinfs path w)
  unfolding replicate_sinf new_writer
  replicate_sinf-IsReplaced env sinfs w old =
      let tmp = tmp_path path in
      step-IsReplaced (λ fs. fs ≡ es) _ (open_reader path w) _ (open_reader-Ends_with w old)
        (open_reader-Keeps path path w ∙ old)
        λ fs w1 same old1.
          step-IsReplaced Anything _ (create tmp w1) _ (create-Ends (λ _. Unit {0}) tmp w1)
            (create-Keeps path tmp tmp_ne w1 ∙ old1)
            λ _ w2 _ old2. rw same (
              let w3 = (new_writer tmp w2).1 in
              filled (fill_package env sinfs es tmp w3)
                (fill_package-Post tmp env sinfs es w3 (update_self w2.writers tmp (some [])))
                (fill_package-Keeps path env sinfs es tmp w3 ∙ old2))
