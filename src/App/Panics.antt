-- ===== src/App/Panics.antt =====
-- When `GetAppInfo` panics.
use ipaversion.Base.{◌≡◌, ◌≢◌, ◌↔◌, ◌∙◌, sym, inl, inr, refl, ap, arith}
use ipaversion.Base.Text.{Text, Bytes, codes, text_is_empty}
use ipaversion.Outcome.{
  Outcome, ok, err, panic, >>=-eq-ok, outcome, Outcome-cases, interface_conversion, ◌>>=◌,
}
use ipaversion.Plist.{Values, nil, cons, get}
use ipaversion.Plist.{DownloadItemResult}
use ipaversion.World.{Env}
use ipaversion.App.{
  AppInfo, first_item, check_result, get_download_item_result, as_string, as_uint64, as_slice,
  version_ids, assemble, app_of, get_app_info,
}
use ipaversion.App.Laws.{
  Describes, IsAnswer, check_result-eq-ok, tail_of, get_app_info_iff, get_app_info-err_iff,
}

-- A failed assertion is all that the outcome may panic with.
abbrev Converts : {A : Type 0} → Outcome A → Type 0
Converts o = (p : Text) → o ≡ panic p → p ≡ interface_conversion

>>=-Converts :
    {A B : Type 0} (o : Outcome A) (f : A → Outcome B)
    → Converts o
    → ((a : A) → Converts (f a))
    → Converts (o >>= f)
>>=-Converts (ok a) f h k = k a
>>=-Converts (err e) f h k = λ p q. cc
>>=-Converts (panic m) f h k = λ p q. let e : m ≡ p = cc in h p (ap panic e)

version_ids-Converts : (vs : Values) → Converts (version_ids vs)
unfolding version_ids
version_ids-Converts nil = λ p q. cc
version_ids-Converts (cons v vs) = λ p q. ground (arith, version_ids-Converts vs p)

get_download_item_result-ne-panic :
    (env : Env) (response : Bytes) (p : Text) → get_download_item_result env response ≢ panic p
unfolding get_download_item_result check_result first_item
get_download_item_result-ne-panic env response p h = ground arith

app_of-Converts : (response : Bytes) (item : DownloadItemResult) → Converts (app_of response item)
unfolding app_of assemble as_slice as_string as_uint64
app_of-Converts response item =
    >>=-Converts (as_slice (get item.metadata (codes "softwareVersionExternalIdentifiers"))) _
      (λ p q. ground arith)
      λ vs. >>=-Converts (version_ids vs) _ (version_ids-Converts vs) λ ids p q. ground arith

-- The item that the answer holds.
item_of :
    (env : Env) (response : Bytes) (a : AppInfo) (item : DownloadItemResult)
    → IsAnswer env response a
    → get_download_item_result env response ≡ ok item
    → a.item ≡ item
unfolding get_download_item_result check_result first_item text_is_empty
item_of env response a item h e = ground (arith, h.parsed, h.no_failure, h.first)

-- An answer whose first item describes an app is one that is read as that app.
described-IsAnswer :
    (env : Env) (response : Bytes) (item : DownloadItemResult) (a : AppInfo)
    → get_download_item_result env response ≡ ok item
    → Describes item.metadata a
    → IsAnswer env response (record a { item = item; response = response })
unfolding get_download_item_result
described-IsAnswer env response item a e d =
    let (result, parsed, checked) = >>=-eq-ok (outcome (env.unmarshal_download response)) _ e in
    let (fine, first) = check_result-eq-ok result item checked in
    record {
      result = result;
      rest = tail_of result.items;
      parsed = ground arith;
      no_failure = fine;
      first = first;
      kept = refl;
      described = record {
        ids = d.ids;
        display_name = d.display_name;
        short_version = d.short_version;
        id = d.id;
        item_name = d.item_name;
        artist_name = d.artist_name;
      };
    }

read_item :
    (env : Env) (response : Bytes) (item : DownloadItemResult)
    → get_download_item_result env response ≡ ok item
    → get_app_info env response ≡ app_of response item
unfolding get_app_info
read_item env response item e = rw e

-- The answer has a first item, and its metadata describes no app.
pub record Misdescribes (env : Env) (response : Bytes) : Type 0 where
  pub item : DownloadItemResult
  pub found : get_download_item_result env response ≡ ok item
  pub no_app : (a : AppInfo) → ¬ Describes item.metadata a

misdescribed :
    (env : Env) (response : Bytes) (p : Text)
    → get_app_info env response ≡ panic p
    → (p ≡ interface_conversion) × Misdescribes env response
unfolding get_app_info
misdescribed env response p h = elim (Outcome-cases (get_download_item_result env response)) [
  | inr (inl (d, found)) ↦ absurd (let q = rw found at h in cc)
  | inr (inr (m, found)) ↦ absurd (get_download_item_result-ne-panic env response m found)
  | inl (item, found) ↦ (
    app_of-Converts response item p (sym (read_item env response item found) ∙ h),
    record {
      item = item;
      found = found;
      no_app = λ a d.
          let q =
            (get_app_info_iff env response (record a { item = item; response = response })).1
              (described-IsAnswer env response item a found d) in
          cc;
    },
  )
]

panics :
    (env : Env) (response : Bytes)
    → Misdescribes env response
    → get_app_info env response ≡ panic interface_conversion
panics env response m = elim (Outcome-cases (get_app_info env response)) [
  | inl (a, q) ↦
      let h = (get_app_info_iff env response a).0 q in
      let e = item_of env response a m.item h m.found in
      absurd (m.no_app a (rw⁻¹ (ap (λ (i : DownloadItemResult). i.metadata) e) h.described))
  | inr (inl (d, q)) ↦
      absurd (let e = (get_app_info-err_iff env response d).0 q in let f = m.found in cc)
  | inr (inr (p, q)) ↦ q ∙ ap panic (misdescribed env response p q).0
]

-- `GetAppInfo` panics exactly when the answer has a first item and its metadata describes no app:
-- an entry is missing or has another type. The panic is that of a failed type assertion.
pub get_app_info-panic_iff :
    (env : Env) (response : Bytes) (p : Text)
    → (get_app_info env response ≡ panic p)
      ↔ ((p ≡ interface_conversion) × Misdescribes env response)
get_app_info-panic_iff env response p =
    (misdescribed env response p, λ h. panics env response h.1 ∙ ap panic (sym h.0))
