-- ===== src/Storage/Find/Catalog.antt =====
-- The abstract view of the store: the list of responses in load order, and what a request asks of a
-- response.
use auto_mock_tools.Prelude.{◌≡◌, Bool, false, ◌&&◌, ◌||◌, List, Bytes, equal, is_empty, has_byte}
use auto_mock_tools.Ascii.{equal_fold_bytes}
use auto_mock_tools.Storage.Types.{MockResponse, MockStorage}
use auto_mock_tools.Storage.Index.{response_key, path_mock_id_key}
use auto_mock_tools.Storage.Index.Buckets.{index}

-- Path and mock id hold no '|', so that the key has one reading.
pub record NoPipe (path mock_id : Bytes) : Type 0 where
  pub of_path : has_byte b'|' path ≡ false
  pub of_mock_id : has_byte b'|' mock_id ≡ false

module _ {F : Type 0} where
  -- no method, or the response's in any case
  abbrev pub accepts : Bytes → MockResponse F → Bool
  accepts method r = is_empty method || equal_fold_bytes r.method_bytes method

  -- the response is for this path, mock id and content type
  abbrev pub serves : Bytes → Bytes → Bytes → MockResponse F → Bool
  serves path mock_id content_type r =
      equal r.path path && equal r.mock_id mock_id && equal r.content_type content_type

  abbrev pub Readable : MockResponse F → Type 0
  Readable r = NoPipe r.path r.mock_id

-- The maps of the store index the list.
module _ {F Op : Type 0} where
  pub record Indexes (rs : List (MockResponse F)) (s : MockStorage F Op) : Type 0 where
    pub by_key : s.responses ≡ index response_key rs
    pub by_path : s.responses_by_path_mock_id ≡ index path_mock_id_key rs
