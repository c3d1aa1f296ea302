-- ===== src/Tests/Store.antt =====
-- The store's answer as an app.
use ipaversion.Base.{◌≡◌, refl, [], ◌∷◌}
use ipaversion.Outcome.{ok, panic, done, interface_conversion}
use ipaversion.World.{Env}
use ipaversion.Plist.{get}
use ipaversion.App.Panics.{get_app_info-panic_iff}
use ipaversion.App.{get_app_info, get_download_item_result}
use ipaversion.App.Laws.{get_app_info_iff}
use ipaversion.Tests.Fixtures.{store, answer_bytes, notes, notes-IsAnswer, item}

get_app_info_iff_example : get_app_info store answer_bytes ≡ ok notes
get_app_info_iff_example = (get_app_info_iff store answer_bytes notes).1 notes-IsAnswer

-- A store whose answer has an item without metadata.
abbrev bare_store : Env
bare_store = record store {
  unmarshal_download = λ b. done (record {
    failure_type = [];
    customer_message = [];
    items = record item { metadata = [] } ∷ [];
  });
}

get_app_info-panic_iff_example : get_app_info bare_store [] ≡ panic interface_conversion
unfolding get_download_item_result get
get_app_info-panic_iff_example = (get_app_info-panic_iff bare_store [] interface_conversion).1 (
  refl,
  record {
    item = record item { metadata = [] };
    found = refl;
    no_app = λ a d. (let h = d.ids in cc);
  },
)
