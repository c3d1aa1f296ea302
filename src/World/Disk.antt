-- ===== src/World/Disk.antt =====
-- Files and their contents.
use ipaversion.Base.{ℕ, ◌≡◌, refl, false, Option, List, [], ◌∷◌, ◌++◌, arith, if◌then◌else◌}
use ipaversion.Base.Text.{Text, Bytes, text_eq, text_eq_refl}

-- A file of a zip archive: its name, the rest of its header as one number, and its data.
pub record Entry : Type 0 where
  pub name : Text
  pub header : ℕ
  pub content : Bytes

-- `gzip_cut` is a gzip stream that breaks off; `unfinished` is the file of a zip writer whose
-- central directory was not written, which is no archive.
pub data Content : Type 0 where
  plain : Bytes → Content
  gzip : Bytes → Content
  gzip_cut : Bytes → Content
  archive : List Entry → Content
  unfinished : List Entry → Content

abbrev pub Files : Type 0
Files = Text → Option Content

abbrev pub update {ℓ} : {A : Type ℓ} → (Text → Option A) → Text → Option A → Text → Option A
update f path v p = if text_eq path p then v else f p

pub update_self {ℓ} :
    {A : Type ℓ} (f : Text → Option A) (path : Text) (v : Option A) → update f path v path ≡ v
update_self f path v = rw (text_eq_refl path)

pub update_ne {ℓ} :
    {A : Type ℓ} (f : Text → Option A) (path other : Text) (v : Option A)
    → text_eq path other ≡ false
    → update f path v other ≡ f other
update_ne f path other v h = rw h

-- A path that is longer than another is another path.
pub text_eq-append_ne : (s : Text) (c : ℕ) (t : Text) → text_eq s (s ++ (c ∷ t)) ≡ false
unfolding text_eq
text_eq-append_ne [] c t = refl
text_eq-append_ne (d ∷ s) c t = ground (arith, text_eq-append_ne s c t)

pub text_eq-append_ne_left : (s : Text) (c : ℕ) (t : Text) → text_eq (s ++ (c ∷ t)) s ≡ false
unfolding text_eq
text_eq-append_ne_left [] c t = refl
text_eq-append_ne_left (d ∷ s) c t = ground (arith, text_eq-append_ne_left s c t)

pub text_eq-append : (p s t : Text) → text_eq (p ++ s) (p ++ t) ≡ text_eq s t
unfolding text_eq
text_eq-append [] s t = refl
text_eq-append (c ∷ p) s t = ground (arith, text_eq-append p s t)
