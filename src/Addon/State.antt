-- ===== src/Addon/State.antt =====
-- The add-on's fields, and the state that its handlers change.
use ipaversion.Base.{ℕ, Bool, List, [], ◌∷◌, ◌++◌}
use ipaversion.Base.Int.{ℤ}
use ipaversion.Base.Text.{Text}
use ipaversion.Outcome.{Outcome, ok, err, panic}
use ipaversion.App.{AppInfo}
use ipaversion.World.{World, Action, Run}

-- `Lock` is the mutex's state, and `done` the values sent on the channel, oldest first.
pub record Addon : Type 0 where
  pub lock : Bool
  pub done : List Bool
  pub start : ℤ
  pub end : ℤ
  pub history_versions : List AppInfo
  pub client_user_agent : Text
  pub dump_responses : Bool
  pub counter : ℕ

pub record Session : Type 0 where
  pub addon : Addon
  pub world : World

-- A call on the world, from the add-on.
on_world : {A : Type 0} → Session → Outcome A × World → Outcome A × Session
on_world s (r, w) = (r, record s { world = w })

unfoldable pub in_world : {A : Type 0} → Action A → Run Session A
unfolding on_world
in_world m s = on_world s (m s.world)

abbrev pub modify : (Addon → Addon) → Run Session (Unit {0})
modify f s = (ok tt, record s { addon = f s.addon })

-- `if err != nil { log.Panicln(message, err) }`
abbrev pub panicked : {S A : Type 0} → (Text → Text) → Outcome A × S → Outcome A × S
panicked f (ok a, s) = (ok a, s)
panicked f (err e, s) = (panic (f e), s)
panicked f (panic p, s) = (panic p, s)

abbrev pub or_panicln : {S A : Type 0} → (Text → Text) → Run S A → Run S A
or_panicln f m s = panicked f (m s)

abbrev pub println : Text → Text → Text
println message e = message ++ (0x20 ∷ (e ++ (0xa ∷ [])))
