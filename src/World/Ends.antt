-- ===== src/World/Ends.antt =====
-- Reasoning about how a call may end, in any world: what it returns and with what it may panic.
use ipaversion.Base.{ℕ, arith}
use ipaversion.Base.Text.{Text, Bytes}
use ipaversion.Outcome.{Outcome, ok, err, panic}
use ipaversion.World.State.{World, Action}
use ipaversion.World.Monad.{after, with_message, cleaned}
use ipaversion.World.Disk.{Content}
use ipaversion.World.Calls.{system_call, create, remove, rename, write_file}
use ipaversion.World.Zip.{open_reader, create_raw, write_entry}

-- A result satisfies `Q`, and a panic's message `P`.
abbrev pub Ends : {A : Type 0} → (A → Type 0) → (Text → Type 0) → Outcome A × World → Type 0
Ends Q P (ok a, w) = Q a
Ends Q P (err e, w) = Unit
Ends Q P (panic m, w) = P m

abbrev pub Anything : {A : Type 0} → A → Type 0
Anything a = Unit

module _ (P : Text → Type 0) where
  pub after-Ends :
      {A B : Type 0} (Q : A → Type 0) (R : B → Type 0) (r : Outcome A × World) (f : A → Action B)
      → Ends Q P r
      → ((a : A) (w : World) → Q a → Ends R P (f a w))
      → Ends R P (after r f)
  after-Ends Q R (ok a, w) f h k = k a w h
  after-Ends Q R (err e, w) f h k = tt
  after-Ends Q R (panic m, w) f h k = h

  pub with_message-Ends :
      {A : Type 0} (Q : A → Type 0) (g : Text → Text) (r : Outcome A × World)
      → Ends Q P r
      → Ends Q P (with_message g r)
  with_message-Ends Q g (ok a, w) h = h
  with_message-Ends Q g (err e, w) h = tt
  with_message-Ends Q g (panic m, w) h = h

  pub cleaned-Ends :
      {A B : Type 0} (Q : A → Type 0) (c : Action B) (r : Outcome A × World)
      → Ends Q P r
      → Ends Q P (cleaned c r)
  cleaned-Ends Q c (ok a, w) h = h
  cleaned-Ends Q c (err e, w) h = tt
  cleaned-Ends Q c (panic m, w) h = h

  -- A step with its error message, and what follows it.
  pub step-Ends :
      {A B : Type 0} (Q : A → Type 0) (R : B → Type 0) (g : Text → Text) (r : Outcome A × World)
      (f : A → Action B)
      → Ends Q P r
      → ((a : A) (w : World) → Q a → Ends R P (f a w))
      → Ends R P (after (with_message g r) f)
  step-Ends Q R g r f h k = after-Ends Q R (with_message g r) f (with_message-Ends Q g r h) k

  -- The calls of the system never panic.
  pub system_call-Ends : (w : World) → Ends Anything P (system_call w)
  unfolding system_call
  system_call-Ends w = ground arith

  pub create-Ends : (p : Text) (w : World) → Ends Anything P (create p w)
  unfolding create
  create-Ends p w = ground arith

  pub remove-Ends : (p : Text) (w : World) → Ends Anything P (remove p w)
  unfolding remove
  remove-Ends p w = ground arith

  pub rename-Ends : (p q : Text) (w : World) → Ends Anything P (rename p q w)
  unfolding rename
  rename-Ends p q w = ground arith

  pub open_reader-Ends : (p : Text) (w : World) → Ends Anything P (open_reader p w)
  unfolding open_reader
  open_reader-Ends p w = ground arith

  pub create_raw-Ends :
      (p name : Text) (header : ℕ) (w : World) → Ends Anything P (create_raw p name header w)
  unfolding create_raw
  create_raw-Ends p name header w = ground arith

  pub write_entry-Ends : (p : Text) (d : Bytes) (w : World) → Ends Anything P (write_entry p d w)
  unfolding write_entry
  write_entry-Ends p d w = ground arith

  pub write_file-Ends : (p : Text) (c : Content) (w : World) → Ends Anything P (write_file p c w)
  unfolding write_file
  write_file-Ends p c w = ground arith
