-- ===== src/Loader/Placed.antt =====
-- Where a loaded response is found: its path, method, mock id and content type.
use auto_mock_tools.Prelude.{◌≡◌, refl, subst, Bytes, Assoc, ok, ok_injective, >>=-eq-ok}
use auto_mock_tools.Json.{Json}
use auto_mock_tools.Host.{Host}
use auto_mock_tools.Storage.Types.{MockResponse}
use auto_mock_tools.Loader.Fields.{header_maps, record_content_type, record_method, record_mock_id}
use auto_mock_tools.Loader.Body.{body_bytes}
use auto_mock_tools.Loader.{build_response}

module _ {F : Type 0} (host : Host F) where
  pub record IsPlacedAt (fallback : Bytes) (request response : Assoc (Json F)) (path : Bytes)
      (r : MockResponse F) : Type 0 where
    pub path_kept : r.path ≡ path
    pub method_kept : r.method ≡ record_method host request
    pub method_bytes_kept : r.method_bytes ≡ record_method host request
    pub mock_id_kept : r.mock_id ≡ record_mock_id host fallback request
    pub content_type_kept :
        r.content_type ≡ record_content_type host (header_maps host response).lower

  pub build_response-IsPlacedAt :
      (fallback : Bytes) (request response : Assoc (Json F)) (url path : Bytes) (r : MockResponse F)
      → build_response host fallback request response url path ≡ ok r
      → IsPlacedAt fallback request response path r
  unfolding build_response
  build_response-IsPlacedAt fallback request response url path r h =
      let (serialized, _, built) = >>=-eq-ok (body_bytes host _ _) _ h in
      subst (IsPlacedAt fallback request response path) (ok_injective built) (record {
        path_kept = refl;
        method_kept = refl;
        method_bytes_kept = refl;
        mock_id_kept = refl;
        content_type_kept = refl;
      })
