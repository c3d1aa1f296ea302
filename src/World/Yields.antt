-- ===== src/World/Yields.antt =====
-- Reasoning about what a call returns and the world that it leaves, when it returns no error, in any
-- world.
use ipaversion.Base.{◌≡◌, refl, none, some, arith}
use ipaversion.Base.Text.{Text, text_eq_refl}
use ipaversion.Outcome.{Outcome, ok, err, panic}
use ipaversion.World.Disk.{Content, archive}
use ipaversion.World.State.{World, Action}
use ipaversion.World.Monad.{after, with_message, cleaned, lift}
use ipaversion.World.Calls.{create, remove, write_file}
use ipaversion.World.Zip.{open_reader}
use ipaversion.World.Post.{Post}

-- If the call returns, its result and its world satisfy `Q`.
abbrev pub Yields : {A : Type 0} → (A → World → Type 0) → Outcome A × World → Type 0
Yields Q (ok a, w) = Q a w
Yields Q (err e, w) = Unit
Yields Q (panic p, w) = Unit

pub Yields-map :
    {A : Type 0} (Q R : A → World → Type 0)
    → ((a : A) (w : World) → Q a w → R a w)
    → (r : Outcome A × World) → Yields Q r
    → Yields R r
Yields-map Q R f (ok a, w) h = f a w h
Yields-map Q R f (err e, w) h = tt
Yields-map Q R f (panic p, w) h = tt

-- The world that the call leaves is the one that it yields.
pub Yields_world :
    {A : Type 0} (Q : A → World → Type 0) (r : Outcome A × World)
    → Yields Q r
    → Yields (λ a w. Q a w × (r.1 ≡ w)) r
Yields_world Q (ok a, w) h = (h, refl)
Yields_world Q (err e, w) h = tt
Yields_world Q (panic p, w) h = tt

pub after-Yields :
    {A B : Type 0} (Q : A → World → Type 0) (R : B → World → Type 0) (r : Outcome A × World)
    (f : A → Action B)
    → Yields Q r
    → ((a : A) (w : World) → Q a w → Yields R (f a w))
    → Yields R (after r f)
after-Yields Q R (ok a, w) f h k = k a w h
after-Yields Q R (err e, w) f h k = tt
after-Yields Q R (panic p, w) f h k = tt

pub with_message-Yields :
    {A : Type 0} (Q : A → World → Type 0) (g : Text → Text) (r : Outcome A × World)
    → Yields Q r
    → Yields Q (with_message g r)
with_message-Yields Q g (ok a, w) h = h
with_message-Yields Q g (err e, w) h = tt
with_message-Yields Q g (panic p, w) h = tt

-- A step with its error message, and what follows it.
pub step-Yields :
    {A B : Type 0} (Q : A → World → Type 0) (R : B → World → Type 0) (g : Text → Text)
    (r : Outcome A × World) (f : A → Action B)
    → Yields Q r
    → ((a : A) (w : World) → Q a w → Yields R (f a w))
    → Yields R (after (with_message g r) f)
step-Yields Q R g r f h k = after-Yields Q R (with_message g r) f (with_message-Yields Q g r h) k

pub cleaned-Yields :
    {A B : Type 0} (Q R : A → World → Type 0) (c : Action B) (r : Outcome A × World)
    → Yields Q r
    → ((a : A) (w : World) → Q a w → R a (c w).1)
    → Yields R (cleaned c r)
cleaned-Yields Q R c (ok a, w) h k = k a w h
cleaned-Yields Q R c (err e, w) h k = tt
cleaned-Yields Q R c (panic p, w) h k = tt

pub Post-Yields :
    {A : Type 0} (Q : World → Type 0) (r : Outcome A × World) → Post Q r → Yields (λ a. Q) r
Post-Yields Q (ok a, w) h = h
Post-Yields Q (err e, w) h = tt
Post-Yields Q (panic p, w) h = tt

-- The call keeps the world, and returns what it is known to return.
pub lift-Yields :
    {A : Type 0} (R : World → Type 0) (o : Outcome A) (w : World)
    → R w
    → Yields (λ a v. (o ≡ ok a) × R v) (lift o w)
lift-Yields R (ok a) w h = (refl, h)
lift-Yields R (err e) w h = tt
lift-Yields R (panic p) w h = tt

module _ (p : Text) where
  -- An archive is opened only where there is one.
  pub open_reader-Yields :
      (w : World)
      → Yields
          (λ es v. (w.files p ≡ some (archive es)) × (v.files p ≡ some (archive es)))
          (open_reader p w)
  unfolding open_reader
  open_reader-Yields w = ground arith

  pub create-Yields : (w : World) → Yields (λ _ v. v.calls ≡ w.calls) (create p w)
  unfolding create
  create-Yields w = ground arith

  pub write_file-Yields :
      (c : Content) (w : World) → Yields (λ _ v. v.files p ≡ some c) (write_file p c w)
  unfolding write_file
  write_file-Yields c w = ground (arith, text_eq_refl p)

  pub remove-Yields : (w : World) → Yields (λ _ v. v.files p ≡ none) (remove p w)
  unfolding remove
  remove-Yields w = ground (arith, text_eq_refl p)
