-- ===== src/Loader/Fields.antt =====
-- pkg/storage/record_loader.go: the fields that `parseMockRecord` reads from a recorded file, each
-- with its fallback.
use auto_mock_tools.Prelude.{
  [], ◌∷◌, none, some, if◌then◌else◌, Bytes, codes, is_empty, cut_at, Assoc, lookup, insert, Result,
  ok, invalid_url, or_error, ◌>>=◌,
}
use auto_mock_tools.Json.{Json, as_str, as_num, as_obj, value_at, str_or_empty}
use auto_mock_tools.Host.{Host, ℤ, pos}
use auto_mock_tools.Ascii.{to_lower_ascii_simple}

-- `m[k]` of a `map[string]string`
abbrev pub text_at : Bytes → Assoc Bytes → Bytes
text_at k m = elim (lookup k m) [ none ↦ [] | some s ↦ s ]

-- `responseHeadersStr` and `responseHeadersLower`
pub record HeaderMaps : Type 0 where
  pub exact : Assoc Bytes
  pub lower : Assoc Bytes

unfoldable pub header_keys_lower_from : Assoc Bytes → Assoc Bytes → Assoc Bytes
header_keys_lower_from acc [] = acc
header_keys_lower_from acc ((k, v) ∷ m) =
    header_keys_lower_from (insert (to_lower_ascii_simple k) k acc) m

module _ {F : Type 0} (host : Host F) where
  unfoldable pub request_path : Bytes → Result Bytes
  request_path url = do
    path ← or_error invalid_url (host.url_path url)
    ok (if is_empty path then codes "/" else path)

  lower_keys_from : Assoc (Json F) → Assoc (Json F) → Assoc (Json F)
  lower_keys_from acc [] = acc
  lower_keys_from acc ((k, v) ∷ m) = lower_keys_from (insert (host.to_lower k) v acc) m

  unfoldable pub record_mock_id : Bytes → Assoc (Json F) → Bytes
  unfolding lower_keys_from
  record_mock_id fallback request = elim (as_obj (value_at (codes "headers") request)) [
    | none ↦ fallback
    | some headers ↦
        let headers_lower = lower_keys_from [] (host.visit _ headers) in
        let id = str_or_empty (value_at (codes "x-mock-id") headers_lower) in
        if is_empty id then fallback else id
  ]

  header_maps_from : HeaderMaps → Assoc (Json F) → HeaderMaps
  header_maps_from acc [] = acc
  header_maps_from acc ((k, v) ∷ m) =
      header_maps_from
        (elim (as_str v) [
          | none ↦ acc
          | some s ↦ record {
            exact = insert k s acc.exact;
            lower = insert (host.to_lower k) s acc.lower;
          }
        ])
        m

  unfoldable pub header_maps : Assoc (Json F) → HeaderMaps
  unfolding header_maps_from
  header_maps response =
      header_maps_from (record { exact = []; lower = [] })
        (elim (as_obj (value_at (codes "headers") response)) [
          | none ↦ []
          | some headers ↦ host.visit _ headers
        ])

  unfoldable pub record_content_type : Assoc Bytes → Bytes
  record_content_type lower =
      let content_type = text_at (codes "content-type") lower in
      if is_empty content_type
      then codes "application/json"
      else host.trim_space (cut_at b';' content_type)

  unfoldable pub record_method : Assoc (Json F) → Bytes
  record_method request =
      let method = str_or_empty (value_at (codes "method") request) in
      if is_empty method then codes "GET" else method

  unfoldable pub record_status_code : Assoc (Json F) → ℤ
  record_status_code response = elim (as_num (value_at (codes "status_code") response)) [
    | none ↦ pos 200
    | some x ↦ host.to_int x
  ]

  -- `elapsed_seconds` is the older name of `delay`
  unfoldable pub record_delay : Assoc (Json F) → F
  record_delay response = elim (as_num (value_at (codes "delay") response)) [
    | some d ↦ d
    | none ↦ elim (as_num (value_at (codes "elapsed_seconds") response)) [
      | some d ↦ d
      | none ↦ host.zero
    ]
  ]

  unfoldable pub header_keys_lower : Assoc Bytes → Assoc Bytes
  unfolding header_keys_lower_from
  header_keys_lower headers = header_keys_lower_from [] (host.visit _ headers)
