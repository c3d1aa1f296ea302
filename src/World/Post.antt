-- ===== src/World/Post.antt =====
-- Reasoning about the world that a call leaves when it returns no error, in any world.
use ipaversion.Base.{ℕ, ◌≡◌, ◌⊎◌, none, some, List, [], ◌∷◌, ◌++◌, arith}
use ipaversion.Base.Text.{Text, Bytes, text_eq_refl}
use ipaversion.Outcome.{Outcome, ok, err, panic}
use ipaversion.World.Disk.{Entry, archive, unfinished}
use ipaversion.World.State.{World, Action}
use ipaversion.World.Monad.{after, with_message}
use ipaversion.World.Calls.{system_call}
use ipaversion.World.Quiet.{append_data-last}
use ipaversion.World.Zip.{create_raw, write_entry, close_writer}

-- If the call returns, its world satisfies `Q`.
abbrev pub Post : {A : Type 0} → (World → Type 0) → Outcome A × World → Type 0
Post Q (ok a, w) = Q w
Post Q (err e, w) = Unit
Post Q (panic p, w) = Unit

pub Post-map :
    {A : Type 0} (Q R : World → Type 0)
    → ((w : World) → Q w → R w)
    → (r : Outcome A × World) → Post Q r
    → Post R r
Post-map Q R f (ok a, w) h = f w h
Post-map Q R f (err e, w) h = tt
Post-map Q R f (panic p, w) h = tt

pub after-Post :
    {A B : Type 0} (Q R : World → Type 0) (r : Outcome A × World) (f : A → Action B)
    → Post Q r
    → ((a : A) (w : World) → Q w → Post R (f a w))
    → Post R (after r f)
after-Post Q R (ok a, w) f h k = k a w h
after-Post Q R (err e, w) f h k = tt
after-Post Q R (panic p, w) f h k = tt

pub with_message-Post :
    {A : Type 0} (Q : World → Type 0) (g : Text → Text) (r : Outcome A × World)
    → Post Q r
    → Post Q (with_message g r)
with_message-Post Q g (ok a, w) h = h
with_message-Post Q g (err e, w) h = tt
with_message-Post Q g (panic p, w) h = tt

-- A step with its error message, and what follows it.
pub step-Post :
    {A B : Type 0} (Q R : World → Type 0) (g : Text → Text) (r : Outcome A × World)
    (f : A → Action B)
    → Post Q r
    → ((a : A) (w : World) → Q w → Post R (f a w))
    → Post R (after (with_message g r) f)
step-Post Q R g r f h k = after-Post Q R (with_message g r) f (with_message-Post Q g r h) k

module _ (p : Text) where
  -- The writer at `p` holds these entries.
  abbrev pub Holds : List Entry → World → Type 0
  Holds es w = w.writers p ≡ some es

  pub system_call-Post :
      (es : List Entry) (w : World) → Holds es w → Post (Holds es) (system_call w)
  unfolding system_call
  system_call-Post es w h = ground arith

  pub create_raw-Post :
      (es : List Entry) (name : Text) (header : ℕ) (w : World)
      → Holds es w
      → Post
          (Holds (es ++ (record { name = name; header = header; content = [] } ∷ [])))
          (create_raw p name header w)
  unfolding create_raw
  create_raw-Post es name header w h = ground (arith, text_eq_refl p)

  pub write_entry-Post :
      (es : List Entry) (e : Entry) (d : Bytes) (w : World)
      → Holds (es ++ (e ∷ [])) w
      → Post (Holds (es ++ (record e { content = e.content ++ d } ∷ []))) (write_entry p d w)
  unfolding write_entry
  write_entry-Post es e d w h = ground (arith, text_eq_refl p, append_data-last es e d)

  -- A writer that is closed leaves an archive, or the file that it has begun.
  pub close_writer-files :
      (es : List Entry) (w : World)
      → Holds es w
      → let v = (close_writer p w).1 in
        (v.writers p ≡ none)
        × ((v.files p ≡ some (archive es)) ⊎ (v.files p ≡ some (unfinished es)))
  unfolding close_writer
  close_writer-files es w h = ground (arith, text_eq_refl p)
