-- ===== src/Storage/Keys/Injective.antt =====
-- When two requests, or two records, share an index key.
use mathlib.Core.List.{append_assoc}
use auto_mock_tools.Prelude.{
  ◌≡◌, sym, ◌∙◌, false, ◌∷◌, ◌++◌, Bytes, has_byte, append-separator_injective,
}
use auto_mock_tools.Storage.Keys.{
  make_index_key, make_index_key_from_bytes, make_path_mock_id_key,
  make_path_mock_id_key_from_bytes,
}

-- The builders over bytes give the keys of the builders over strings.
pub make_index_key_from_bytes_lem :
    (path mock_id content_type : Bytes)
    → make_index_key_from_bytes path mock_id content_type ≡ make_index_key path mock_id content_type
unfolding make_index_key_from_bytes make_index_key
make_index_key_from_bytes_lem path mock_id content_type = simp append_assoc

pub make_path_mock_id_key_from_bytes_lem :
    (path mock_id : Bytes)
    → make_path_mock_id_key_from_bytes path mock_id ≡ make_path_mock_id_key path mock_id
unfolding make_path_mock_id_key_from_bytes make_path_mock_id_key
make_path_mock_id_key_from_bytes_lem path mock_id = simp append_assoc

-- Index keys with no '|' in their paths and mock ids are equal only if all three parts are.
pub make_index_key_injective :
    (p m c p' m' c' : Bytes)
    → has_byte b'|' p ≡ false
    → has_byte b'|' m ≡ false
    → has_byte b'|' p' ≡ false
    → has_byte b'|' m' ≡ false
    → make_index_key p m c ≡ make_index_key p' m' c'
    → (p ≡ p') × (m ≡ m') × (c ≡ c')
unfolding make_index_key
make_index_key_injective p m c p' m' c' hp hm hp' hm' e =
    let e' : p ++ b'|' ∷ (m ++ b'|' ∷ c) ≡ p' ++ b'|' ∷ (m' ++ b'|' ∷ c') =
      sym (append_assoc p (b'|' ∷ m) (b'|' ∷ c)) ∙ e ∙ append_assoc p' (b'|' ∷ m') (b'|' ∷ c') in
    let (path, rest) = append-separator_injective b'|' p p' _ _ hp hp' e' in
    let (mock, content) = append-separator_injective b'|' m m' c c' hm hm' rest in
    (path, mock, content)

-- A '|' at the end of a path, or at the start of a mock id, is read either way.
pub make_index_key_collision :
    (p a b c : Bytes) → make_index_key (p ++ b'|' ∷ a) b c ≡ make_index_key p (a ++ b'|' ∷ b) c
unfolding make_index_key
make_index_key_collision p a b c = simp append_assoc
