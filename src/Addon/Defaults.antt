-- ===== src/Addon/Defaults.antt =====
-- What is queried when `-start` and `-end` are not given, and with what body for the latest version.
use ipaversion.Base.{
  ℕ, zero, suc, ◌-◌, ◌≤◌, ◌^◌, ◌≡◌, refl, ap, ◌∙◌, Bool-cases, inl, inr, true, [], ◌∷◌, ◌++◌,
  length, take_all, drop, arith,
}
use ipaversion.Base.Int.{pos}
use ipaversion.Base.Text.{Bytes, codes, decimal, has_prefix, replace_from, replace_all}
use ipaversion.App.{AppInfo}
use ipaversion.World.{Request}
use ipaversion.Addon.Range.{index_range}
use ipaversion.Addon.Bounds.{index_range_lem}
use ipaversion.Addon.State.{Addon}
use ipaversion.Addon.Buy.{selected}
use ipaversion.Addon.Replay.{string_tag, replayed_body}
use ipaversion.Addon.Retry.{version_request}
use ipaversion.Addon.Handle.{replay_input}

index_range_all :
    (n : ℕ) → n ≤ 2 ^ 63 - 1 → index_range n (pos 0) (pos (2 ^ 63 - 1)) ≡ (pos 0, pos n)
index_range_all n h = rw index_range_lem (ground (arith, h))

-- Without `-start` and `-end`, whose defaults are 0 and the greatest int, every version of the app
-- is selected, in the store's order.
selected_all :
    (app : AppInfo) (a : Addon)
    → a.start ≡ pos 0
    → a.end ≡ pos (2 ^ 63 - 1)
    → length app.software_version_external_identifiers ≤ 2 ^ 63 - 1
    → selected app a ≡ app.software_version_external_identifiers
selected_all app a h1 h2 l =
    let ids = app.software_version_external_identifiers in
    rw (h1, h2, index_range_all (length ids) l) (take_all ids (length ids - 0) (omega arith))

prefix_kept : (p s : Bytes) → has_prefix p s ≡ true → p ++ drop (length p) s ≡ s
unfolding has_prefix
prefix_kept [] s h = refl
prefix_kept (c ∷ p) [] h = cc
prefix_kept (c ∷ p) (d ∷ s) h = ground (arith, prefix_kept p s)

replace_from_same :
    (o : ℕ) (old : Bytes) (skip : ℕ) (s : Bytes)
    → replace_from (o ∷ old) (o ∷ old) skip s ≡ drop skip s
unfolding replace_from
replace_from_same o old zero [] = refl
replace_from_same o old (suc skip) [] = refl
replace_from_same o old (suc skip) (c ∷ s) = replace_from_same o old skip s
replace_from_same o old zero (c ∷ s) = elim (Bool-cases (has_prefix (o ∷ old) (c ∷ s))) [
  | inl hit ↦
      let e : suc (length old) - 1 ≡ length old = omega arith in
      rw (hit, e)
        (ap (λ t. (o ∷ old) ++ t) (replace_from_same o old (length old) s)
          ∙ prefix_kept (o ∷ old) (c ∷ s) hit)
  | inr miss ↦ rw miss (ap (λ t. c ∷ t) (replace_from_same o old zero s))
]

-- The replay of the latest version sends the buy request again, as it was intercepted.
version_request_latest :
    (req : Request) (latest index i : ℕ)
    → version_request (replay_input req latest latest index i) ≡ req
unfolding replay_input replayed_body string_tag replace_all
version_request_latest req latest index i = λ j. record req {
  body =
      replace_from_same 0x3c (codes "string>" ++ (decimal latest ++ codes "</string>")) zero
        req.body j;
}
