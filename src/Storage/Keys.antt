-- ===== src/Storage/Keys.antt =====
-- pkg/storage/storage.go: the index keys.
pub mod Injective
use auto_mock_tools.Prelude.{[], ◌∷◌, ◌++◌, Bytes}

unfoldable pub make_index_key : Bytes → Bytes → Bytes → Bytes
make_index_key path mock_id content_type = path ++ b'|' ∷ mock_id ++ b'|' ∷ content_type

-- `makePathMockIDKey`
unfoldable pub make_path_mock_id_key : Bytes → Bytes → Bytes
make_path_mock_id_key path mock_id = path ++ b'|' ∷ mock_id

-- appends to the pooled buffer, whose length was reset
unfoldable pub make_index_key_from_bytes : Bytes → Bytes → Bytes → Bytes
make_index_key_from_bytes path mock_id content_type =
    let buf : Bytes = [] in
    let buf = buf ++ path in
    let buf = buf ++ b'|' ∷ [] in
    let buf = buf ++ mock_id in let buf = buf ++ b'|' ∷ [] in buf ++ content_type

-- the same for `makePathMockIDKeyFromBytes`, which nothing calls
unfoldable pub make_path_mock_id_key_from_bytes : Bytes → Bytes → Bytes
make_path_mock_id_key_from_bytes path mock_id =
    let buf : Bytes = [] in let buf = buf ++ path in let buf = buf ++ b'|' ∷ [] in buf ++ mock_id
