-- ===== src/Storage/Index.antt =====
-- pkg/storage/storage.go: the two indexes that `loadResponses` fills.
pub mod Buckets
use auto_mock_tools.Prelude.{Option, List, [], ◌∷◌, ◌++◌, none, some, Bytes, Assoc, lookup, insert}
use auto_mock_tools.Storage.Types.{MockResponse, MockStorage}
use auto_mock_tools.Storage.Keys.{make_index_key, make_path_mock_id_key}

module _ {V : Type 0} where
  abbrev pub or_nil : Option (List V) → List V
  or_nil none = []
  or_nil (some vs) = vs

  -- `m[k]` of a map of slices: nil for a missing key
  abbrev pub slice_at : Bytes → Assoc (List V) → List V
  slice_at k m = or_nil (lookup k m)

  -- `m[k] = append(m[k], v)`
  unfoldable pub append_at : Bytes → V → Assoc (List V) → Assoc (List V)
  append_at k v m = insert k (slice_at k m ++ v ∷ []) m

module _ {F : Type 0} where
  abbrev pub response_key : MockResponse F → Bytes
  response_key r = make_index_key r.path r.mock_id r.content_type

  abbrev pub path_mock_id_key : MockResponse F → Bytes
  path_mock_id_key r = make_path_mock_id_key r.path r.mock_id

module _ {F Op : Type 0} where
  -- the body of the loop over the files, once a file is parsed
  unfoldable pub index_response : MockStorage F Op → MockResponse F → MockStorage F Op
  index_response s r = record s {
    responses = append_at (response_key r) r s.responses;
    responses_by_path_mock_id = append_at (path_mock_id_key r) r s.responses_by_path_mock_id;
  }
