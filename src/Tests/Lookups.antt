-- ===== src/Tests/Lookups.antt =====
-- Lookups, scenarios and keys at concrete inputs.
use mathlib.Core.List.{Permᴰ}
use auto_mock_tools.Prelude.{
  ◌≡◌, refl, true, false, some, codes, equal, has_byte, has_prefix, cut_at, lookup, insert, In, inl,
}
use auto_mock_tools.Ascii.{trim_space_ascii, equal_fold_bytes}
use auto_mock_tools.Storage.Keys.{make_index_key}
use auto_mock_tools.Storage.Keys.Injective.{make_index_key_injective}
use auto_mock_tools.Storage.Index.{append_at}
use auto_mock_tools.Storage.Find.{
  normalize, find_response_bytes, find_response_bytes_any_content_type,
}
use auto_mock_tools.Storage.Find.Catalog.{accepts}
use auto_mock_tools.Storage.Find.Exact.{find_response_bytes_refines}
use auto_mock_tools.Storage.Find.AnyType.{find_any_sound, find_any_complete}
use auto_mock_tools.Storage.Stats.{list_all_mocks}
use auto_mock_tools.Storage.Stats.Listing.{list_all_mocks-perm}
use auto_mock_tools.Scenario.Match.{skips_method, skips_body, match_scenario_response}
use auto_mock_tools.Scenario.Match.Order.{match_scenario_response_refines}
use auto_mock_tools.Tests.World.{host, externals}
use auto_mock_tools.Tests.Stores.{
  users_get, users_post, loaded, store, store-Indexes, loaded-Readable, users-NoPipe, scenarios,
  scenario_store, scenario_store-Schedules,
}

find_response_bytes_refines_example :
    find_response_bytes store
      (codes "/users")
      (codes "default")
      (codes "application/json; q=1")
      (codes "post")
    ≡ some users_post
unfolding equal equal_fold_bytes normalize trim_space_ascii cut_at
find_response_bytes_refines_example =
    find_response_bytes_refines loaded store (codes "/users") (codes "default")
      (codes "application/json; q=1") (codes "post") store-Indexes loaded-Readable users-NoPipe

find_any_sound_example :
    In users_post loaded
    × (users_post.path ≡ codes "/users")
    × (users_post.mock_id ≡ codes "default")
    × (accepts (codes "POST") users_post ≡ true)
unfolding find_response_bytes_any_content_type equal equal_fold_bytes append_at make_index_key
    insert has_prefix lookup
find_any_sound_example =
    find_any_sound host loaded store (codes "/users") (codes "default") (codes "POST") users_post
      store-Indexes loaded-Readable users-NoPipe refl

find_any_complete_example : accepts (codes "DELETE") users_get ≡ false
unfolding find_response_bytes_any_content_type equal equal_fold_bytes append_at make_index_key
    insert has_prefix lookup
find_any_complete_example =
    find_any_complete host loaded store (codes "/users") (codes "default") (codes "DELETE")
      users_get store-Indexes refl (inl refl) refl refl

make_index_key_injective_example :
    (codes "/a" ≡ codes "/a") × (codes "m" ≡ codes "m") × (codes "t|x" ≡ codes "t|x")
unfolding has_byte
make_index_key_injective_example =
    make_index_key_injective (codes "/a") (codes "m") (codes "t|x") (codes "/a") (codes "m")
      (codes "t|x") refl refl refl refl refl

list_all_mocks-perm_example : Permᴰ (list_all_mocks host store) loaded
list_all_mocks-perm_example = list_all_mocks-perm host loaded store store-Indexes refl

match_scenario_response_refines_example :
    match_scenario_response externals scenario_store (codes "/login") (codes "POST") (codes "guest")
    ≡ some users_get
unfolding equal skips_method skips_body equal_fold_bytes
match_scenario_response_refines_example =
    match_scenario_response_refines externals scenarios scenario_store (codes "/login")
      (codes "POST") (codes "guest") scenario_store-Schedules refl
