-- ===== src/Storage/Find.antt =====
-- pkg/storage/storage.go: the lookups.
pub mod Catalog
pub mod Exact
pub mod AnyType
use auto_mock_tools.Prelude.{
  Bool, true, false, ◌&&◌, ◌||◌, List, [], ◌∷◌, ◌++◌, Option, none, some, if◌then◌else◌, Bytes,
  Assoc, lookup, or_else, find, is_empty, cut_at, has_prefix,
}
use auto_mock_tools.Ascii.{trim_space_ascii, equal_fold_bytes}
use auto_mock_tools.Host.{Host}
use auto_mock_tools.Storage.Types.{MockResponse, MockStorage}
use auto_mock_tools.Storage.Keys.{make_index_key_from_bytes}

-- `FindResponseBytes` cuts the parameters off the content type.
unfoldable pub normalize : Bytes → Bytes
normalize content_type = trim_space_ascii (cut_at b';' content_type)

module _ {F : Type 0} where
  -- the method filter of both lookups: the first candidate if there is no method
  unfoldable pub pick : Bytes → List (MockResponse F) → Option (MockResponse F)
  pick method [] = none
  pick method (c ∷ cs) =
      if is_empty method
      then some c
      else find (λ r. equal_fold_bytes r.method_bytes method) (c ∷ cs)

  -- the loop over the map, from the first entry that is not visited yet
  find_any_from : Bytes → Bytes → Assoc (List (MockResponse F)) → Option (MockResponse F)
  find_any_from prefix method [] = none
  find_any_from prefix method ((key, candidates) ∷ rest) =
      let next = find_any_from prefix method rest in
      if has_prefix prefix key then or_else (pick method candidates) next else next

module _ {F Op : Type 0} where
  unfoldable pub find_response_bytes :
      MockStorage F Op → Bytes → Bytes → Bytes → Bytes → Option (MockResponse F)
  unfolding pick normalize
  find_response_bytes s path mock_id content_type method =
      let key = make_index_key_from_bytes path mock_id (normalize content_type) in
      elim (lookup key s.responses) [ none ↦ none | some candidates ↦ pick method candidates ]

  unfoldable pub find_response_bytes_any_content_type :
      Host F → MockStorage F Op → Bytes → Bytes → Bytes → Option (MockResponse F)
  unfolding find_any_from pick
  find_response_bytes_any_content_type host s path mock_id method =
      let buf : Bytes = [] in
      let buf = buf ++ path in
      let buf = buf ++ b'|' ∷ [] in
      let buf = buf ++ mock_id in
      let prefix = buf ++ b'|' ∷ [] in find_any_from prefix method (host.visit _ s.responses)

  -- `FindResponse`, over strings
  unfoldable pub find_response :
      MockStorage F Op → Bytes → Bytes → Bytes → Bytes → Option (MockResponse F)
  find_response = find_response_bytes
