-- ===== src/Package/Pairs.antt =====
-- When `Zip` pairs two slices, and with what.
use ipaversion.Base.{suc, ◌≡◌, ◌↔◌, refl, sym, ap, ◌∙◌, List, [], ◌∷◌, map, length, arith}
use ipaversion.Outcome.{ok}
use ipaversion.Package.Sinf.{Pair, pairs, zip}

module _ {T U : Type 0} where
  abbrev pub firsts : List (Pair T U) → List T
  firsts ps = map (λ (p : Pair T U). p.first) ps

  abbrev pub seconds : List (Pair T U) → List U
  seconds ps = map (λ (p : Pair T U). p.second) ps

  columns-pairs :
      (ts : List T) (us : List U)
      → length ts ≡ length us
      → (firsts (pairs ts us) ≡ ts) × (seconds (pairs ts us) ≡ us)
  unfolding pairs
  columns-pairs [] [] h = (refl, refl)
  columns-pairs [] (u ∷ us) h = absurd (omega (arith, h))
  columns-pairs (t ∷ ts) [] h = absurd (omega (arith, h))
  columns-pairs (t ∷ ts) (u ∷ us) h =
      let (l, r) = columns-pairs ts us (omega (arith, h)) in
      (ap (λ xs. t ∷ xs) l, ap (λ xs. u ∷ xs) r)

  pairs-columns : (ps : List (Pair T U)) → pairs (firsts ps) (seconds ps) ≡ ps
  unfolding pairs
  pairs-columns [] = refl
  pairs-columns (p ∷ ps) = ap (λ xs. p ∷ xs) (pairs-columns ps)

  length-columns : (ps : List (Pair T U)) → length (firsts ps) ≡ length (seconds ps)
  length-columns [] = refl
  length-columns (p ∷ ps) = ap suc (length-columns ps)

  pub zip-pairs : (ts : List T) (us : List U) → length ts ≡ length us → zip ts us ≡ ok (pairs ts us)
  unfolding zip
  zip-pairs ts us h = ground arith

  zip_sound :
      (ts : List T) (us : List U) (ps : List (Pair T U))
      → zip ts us ≡ ok ps
      → (length ts ≡ length us) × (pairs ts us ≡ ps)
  unfolding zip
  zip_sound ts us ps h = ground arith

  -- `Zip` returns a list of pairs exactly when the slices are its columns.
  zip_iff :
      (ts : List T) (us : List U) (ps : List (Pair T U))
      → (zip ts us ≡ ok ps) ↔ ((firsts ps ≡ ts) × (seconds ps ≡ us))
  zip_iff ts us ps = (
    λ h.
        (let (same, made) = zip_sound ts us ps h in
          let (l, r) = columns-pairs ts us same in
          (ap firsts (sym made) ∙ l, ap seconds (sym made) ∙ r)),
    λ (l, r).
        zip-pairs ts us (ap length (sym l) ∙ length-columns ps ∙ ap length r)
        ∙ (λ i. ok (pairs (sym l i) (sym r i)))
        ∙ ap ok (pairs-columns ps),
  )
