-- ===== src/World/Frame.antt =====
-- Reasoning about the files that a call leaves alone, in any world.
use ipaversion.Base.{ℕ, ◌≡◌, refl, ◌∙◌, false, arith}
use ipaversion.Base.Text.{Text, Bytes, text_eq}
use ipaversion.Outcome.{Outcome, ok, err, panic}
use ipaversion.World.Disk.{Content}
use ipaversion.World.State.{World, Action}
use ipaversion.World.Monad.{after, with_message, ◌>>=◌, on_error, deferring}
use ipaversion.World.Calls.{system_call, create, remove, rename, write_file}
use ipaversion.World.Zip.{open_reader, create_raw, write_entry, close_writer}

module _ (p : Text) where
  -- The call does not touch the file at `p`, however it ends.
  abbrev pub Keeps : {A : Type 0} → Action A → Type 0
  Keeps m = (w : World) → (m w).1.files p ≡ w.files p

  after-Keeps :
      {A B : Type 0} (r : Outcome A × World) (f : A → Action B)
      → ((a : A) → Keeps (f a))
      → (after r f).1.files p ≡ r.1.files p
  after-Keeps (ok a, w) f h = h a w
  after-Keeps (err e, w) f h = refl
  after-Keeps (panic m, w) f h = refl

  pub >>=-Keeps :
      {A B : Type 0} (m : Action A) (f : A → Action B)
      → Keeps m
      → ((a : A) → Keeps (f a))
      → Keeps (m >>= f)
  >>=-Keeps m f h k w = after-Keeps (m w) f k ∙ h w

  with_message-world :
      {A : Type 0} (g : Text → Text) (r : Outcome A × World) → (with_message g r).1 ≡ r.1
  with_message-world g (ok a, w) = refl
  with_message-world g (err e, w) = refl
  with_message-world g (panic m, w) = refl

  pub on_error-Keeps :
      {A : Type 0} (g : Text → Text) (m : Action A) → Keeps m → Keeps (on_error g m)
  on_error-Keeps g m h w = rw (with_message-world g (m w)) (h w)

  -- A step with its error message, and what follows it.
  pub step-Keeps :
      {A B : Type 0} (g : Text → Text) (m : Action A) (f : A → Action B)
      → Keeps m
      → ((a : A) → Keeps (f a))
      → Keeps (on_error g m >>= f)
  step-Keeps g m f h k = >>=-Keeps (on_error g m) f (on_error-Keeps g m h) k

  pub deferring-Keeps :
      {A B : Type 0} (c : Action B) (m : Action A) → Keeps c → Keeps m → Keeps (deferring c m)
  deferring-Keeps c m h k w = h (m w).1 ∙ k w

  pub system_call-Keeps : Keeps system_call
  unfolding system_call
  system_call-Keeps w = ground arith

  pub open_reader-Keeps : (path : Text) → Keeps (open_reader path)
  unfolding open_reader
  open_reader-Keeps path w = ground arith

  pub create_raw-Keeps : (path name : Text) (header : ℕ) → Keeps (create_raw path name header)
  unfolding create_raw
  create_raw-Keeps path name header w = ground arith

  pub write_entry-Keeps : (path : Text) (d : Bytes) → Keeps (write_entry path d)
  unfolding write_entry
  write_entry-Keeps path d w = ground arith

  module _ (path : Text) (other : text_eq path p ≡ false) where
    pub create-Keeps : Keeps (create path)
    unfolding create
    create-Keeps w = ground arith

    pub remove-Keeps : Keeps (remove path)
    unfolding remove
    remove-Keeps w = ground arith

    pub write_file-Keeps : (c : Content) → Keeps (write_file path c)
    unfolding write_file
    write_file-Keeps c w = ground arith

    pub close_writer-Keeps : Keeps (close_writer path)
    unfolding close_writer
    close_writer-Keeps w = ground arith

    pub rename-Keeps : (old : Text) → text_eq old p ≡ false → Keeps (rename old path)
    unfolding rename
    rename-Keeps old other' w = ground arith
