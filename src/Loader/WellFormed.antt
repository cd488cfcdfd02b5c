-- ===== src/Loader/WellFormed.antt =====
-- What holds of every response that `parseMockRecord` returns.
use auto_mock_tools.Prelude.{
  ◌≡◌, ◌≢◌, refl, subst, Bool, true, false, [], arith, Bytes, codes, equal, Assoc, ok, invalid_url,
  invalid_json, invalid_record, or_error, ◌>>=◌, >>=-eq-ok, ok_injective,
}
use auto_mock_tools.Json.{Json, as_obj, value_at, str_or_empty}
use auto_mock_tools.Host.{Host}
use auto_mock_tools.Storage.Types.{MockResponse}
use auto_mock_tools.Loader.Fields.{request_path, record_method, header_maps}
use auto_mock_tools.Loader.Lowered.{
  Keyed, Covers, header_keys_lower-Keyed, header_keys_lower-Covers,
}
use auto_mock_tools.Loader.Body.{event_stream, body_bytes, recorded_events}
use auto_mock_tools.Loader.{as_record, build_response, parse_parts, parse_mock_record}

module _ {F : Type 0} where
  pub record IsWellFormed (r : MockResponse F) : Type 0 where
    pub path_ne_nil : r.path ≢ []
    pub method_ne_nil : r.method ≢ []
    pub method_bytes : r.method_bytes ≡ r.method
    pub keyed : Keyed r.header_keys_lower
    pub covered : Covers r.headers r.header_keys_lower
    pub is_sse : r.is_sse ≡ equal r.content_type event_stream
    pub events_of_sse : r.is_sse ≡ false → r.sse_events ≡ []

module _ {F : Type 0} (host : Host F) where
  request_path-ne_nil : (url path : Bytes) → request_path host url ≡ ok path → path ≢ []
  unfolding request_path
  request_path-ne_nil url path h e =
      let (p, _, h') = >>=-eq-ok (or_error invalid_url (host.url_path url)) _ h in ground arith

  record_method-ne_nil : (request : Assoc (Json F)) → record_method host request ≢ []
  unfolding record_method
  record_method-ne_nil request e = ground arith

  parse_mock_record_lem :
      (bytes fallback : Bytes)
      → parse_mock_record host bytes fallback ≡ (
          or_error invalid_json (host.unmarshal bytes) >>= λ j.
          as_record j >>= parse_parts host fallback)
  unfolding parse_mock_record
  parse_mock_record_lem bytes fallback = refl

  events_of_sse :
      (is_sse : Bool) (body : Json F) → is_sse ≡ false → recorded_events host is_sse body ≡ []
  unfolding recorded_events
  events_of_sse true body e = cc
  events_of_sse false body e = refl

  build_response-IsWellFormed :
      (fallback : Bytes) (request response : Assoc (Json F)) (url path : Bytes) (r : MockResponse F)
      → path ≢ []
      → build_response host fallback request response url path ≡ ok r
      → IsWellFormed r
  unfolding build_response
  build_response-IsWellFormed fallback request response url path r ne h =
      let (serialized, _, built) = >>=-eq-ok (body_bytes host _ _) _ h in
      subst IsWellFormed (ok_injective built) (record {
        path_ne_nil = ne;
        method_ne_nil = record_method-ne_nil request;
        method_bytes = refl;
        keyed = header_keys_lower-Keyed host (header_maps host response).exact;
        covered = header_keys_lower-Covers host (header_maps host response).exact;
        is_sse = refl;
        events_of_sse = events_of_sse _ _;
      })

  parse_parts-IsWellFormed :
      (fallback : Bytes) (top : Assoc (Json F)) (r : MockResponse F)
      → parse_parts host fallback top ≡ ok r
      → IsWellFormed r
  unfolding parse_parts
  parse_parts-IsWellFormed fallback top r h =
      let (request, _, h₁) =
        >>=-eq-ok (or_error invalid_record (as_obj (value_at (codes "request") top))) _ h in
      let (response, _, h₂) =
        >>=-eq-ok (or_error invalid_record (as_obj (value_at (codes "response") top))) _ h₁ in
      let url = str_or_empty (value_at (codes "url") request) in
      let (path, p, h₃) = >>=-eq-ok (request_path host url) _ h₂ in
      build_response-IsWellFormed fallback request response url path r
        (request_path-ne_nil url path p) h₃

  -- Every response that parseMockRecord returns has a path and a method, its method bytes, the
  -- SSE flag of its content type, and events only if that flag is set. Its map of lower-case keys
  -- has the lower case of each of its headers, under which one of the headers with that lower
  -- case stands, and each entry of the map stands under the lower case of its value.
  pub parse_mock_record-IsWellFormed :
      (bytes fallback : Bytes) (r : MockResponse F)
      → parse_mock_record host bytes fallback ≡ ok r
      → IsWellFormed r
  parse_mock_record-IsWellFormed bytes fallback r h =
      let (j, _, h₁) =
        >>=-eq-ok (or_error invalid_json (host.unmarshal bytes)) _
          (rw parse_mock_record_lem at h) in
      let (top, _, h₂) = >>=-eq-ok (as_record j) _ h₁ in parse_parts-IsWellFormed fallback top r h₂
