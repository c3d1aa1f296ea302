-- ===== src/World/Quiet.antt =====
-- How the calls run in a world whose system calls all succeed.
use mathlib.Core.Path.{fun_ext}
use ipaversion.Base.{
  ℕ, ◌≡◌, refl, sym, ap, ◌∙◌, inl, inr, Bool-cases, Option, none, some, List, [], ◌∷◌, ◌++◌, arith,
}
use ipaversion.Base.Text.{Text, Bytes, text_eq, text_eq→≡}
use ipaversion.Outcome.{ok}
use ipaversion.World.Disk.{Entry, Content, plain, archive, Files, update}
use ipaversion.World.State.{Request, World}
use ipaversion.World.Calls.{create, remove, rename, write_file}
use ipaversion.World.Zip.{open_reader, append_data, create_raw, write_entry, close_writer}

-- A world in which no system call fails.
abbrev pub quiet : Files → (Text → Option (List Entry)) → ℕ → List Request → World
quiet fs ws n rs = record { files = fs; writers = ws; faults = []; calls = n; sent = rs }

-- The second of two updates of one path is what counts.
pub update-update {ℓ} :
    {A : Type ℓ} (files : Text → Option A) (path : Text) (first second : Option A)
    → update (update files path first) path second ≡ update files path second
update-update files path first second = fun_ext λ other. ground arith

pub update_same {ℓ} :
    {A : Type ℓ} (f : Text → Option A) (p : Text) (v : Option A) → f p ≡ v → update f p v ≡ f
update_same f p v h = fun_ext λ q. elim (Bool-cases (text_eq p q)) [
  | inl same ↦ rw same (sym h ∙ ap f (text_eq→≡ p q same))
  | inr differ ↦ rw differ
]

pub append_data-last :
    (es : List Entry) (e : Entry) (d : Bytes)
    → append_data (es ++ (e ∷ [])) d ≡ es ++ (record e { content = e.content ++ d } ∷ [])
unfolding append_data
append_data-last [] e d = refl
append_data-last (f ∷ []) e d = refl
append_data-last (f ∷ g ∷ es) e d = ap (λ t. f ∷ t) (append_data-last (g ∷ es) e d)

module _ (fs : Files) (ws : Text → Option (List Entry)) (n : ℕ) (rs : List Request) where
  pub create-quiet :
      (p : Text)
      → create p (quiet fs ws n rs) ≡ (ok tt, quiet (update fs p (some (plain []))) ws n rs)
  unfolding create
  create-quiet p = refl

  pub open_reader-quiet :
      (p : Text) (es : List Entry)
      → fs p ≡ some (archive es)
      → open_reader p (quiet fs ws n rs) ≡ (ok es, quiet fs ws n rs)
  unfolding open_reader
  open_reader-quiet p es h = rw h

  pub create_raw-quiet :
      (p : Text) (es : List Entry) (name : Text) (header : ℕ)
      → ws p ≡ some es
      → create_raw p name header (quiet fs ws n rs) ≡ (
        ok tt,
        quiet fs
            (update ws p
              (some (es ++ (record { name = name; header = header; content = [] } ∷ []))))
            n
            rs,
      )
  unfolding create_raw
  create_raw-quiet p es name header h = rw h

  pub write_entry-quiet :
      (p : Text) (es : List Entry) (e : Entry) (d : Bytes)
      → ws p ≡ some (es ++ (e ∷ []))
      → write_entry p d (quiet fs ws n rs) ≡ (
        ok tt,
        quiet fs (update ws p (some (es ++ (record e { content = e.content ++ d } ∷ [])))) n rs,
      )
  unfolding write_entry
  write_entry-quiet p es e d h = rw (h, append_data-last)

  pub close_writer-quiet :
      (p : Text) (es : List Entry)
      → ws p ≡ some es
      → close_writer p (quiet fs ws n rs)
        ≡ (ok tt, quiet (update fs p (some (archive es))) (update ws p none) n rs)
  unfolding close_writer
  close_writer-quiet p es h = rw h

  pub close_writer_closed :
      (p : Text) → ws p ≡ none → (close_writer p (quiet fs ws n rs)).1 ≡ quiet fs ws n rs
  unfolding close_writer
  close_writer_closed p h = rw h

  pub remove-quiet :
      (p : Text) (c : Content)
      → fs p ≡ some c
      → remove p (quiet fs ws n rs) ≡ (ok tt, quiet (update fs p none) ws n rs)
  unfolding remove
  remove-quiet p c h = rw h

  pub rename-quiet :
      (old new : Text) (c : Content)
      → fs old ≡ some c
      → rename old new (quiet fs ws n rs)
        ≡ (ok tt, quiet (update (update fs old none) new (some c)) ws n rs)
  unfolding rename
  rename-quiet old new c h = rw h

  pub write_file-quiet :
      (p : Text) (c : Content)
      → write_file p c (quiet fs ws n rs) ≡ (ok tt, quiet (update fs p (some c)) ws n rs)
  unfolding write_file
  write_file-quiet p c = refl
