-- ===== src/Loader.antt =====
-- pkg/storage/record_loader.go: `loadResponseFromFile` and `parseMockRecord`.
pub mod Fields
pub mod Body
pub mod Lowered
pub mod WellFormed
pub mod Placed
use auto_mock_tools.Prelude.{
  List, [], Bytes, codes, equal, Assoc, Result, ok, err, invalid_json, invalid_record, read_failed,
  or_error, ◌>>=◌,
}
use auto_mock_tools.Json.{Json, null, obj, field_list, as_obj, value_at, str_or_empty}
use auto_mock_tools.Host.{Host, FileSystem}
use auto_mock_tools.Storage.Types.{MockResponse}
use auto_mock_tools.Loader.Fields.{
  header_maps, request_path, record_mock_id, record_content_type, record_method, record_status_code,
  record_delay, header_keys_lower,
}
use auto_mock_tools.Loader.Body.{event_stream, decoded_body, body_bytes, recorded_events}

module _ {F : Type 0} where
  -- `json.Unmarshal` into a `map[string]interface{}`; null leaves the nil map
  unfoldable pub as_record : Json F → Result (Assoc (Json F))
  as_record (obj fs) = ok (field_list fs)
  as_record null = ok []
  as_record _ = err invalid_json

module _ {F : Type 0} (host : Host F) where
  -- `request` and `response` are the two objects of the file, `url` the recorded URL
  unfoldable pub build_response :
      Bytes → Assoc (Json F) → Assoc (Json F) → Bytes → Bytes → Result (MockResponse F)
  build_response fallback request response url path = do
    let maps = header_maps host response
    let content_type = record_content_type host maps.lower
    let body = decoded_body host maps.lower (value_at (codes "body") response)
    let method = record_method host request
    serialized ← body_bytes host content_type body
    let is_sse = equal content_type event_stream
    ok (record {
      request_id = str_or_empty (value_at (codes "request_id") request);
      path = path;
      method = method;
      method_bytes = method;
      mock_id = record_mock_id host fallback request;
      content_type = content_type;
      status_code = record_status_code host response;
      headers = maps.exact;
      header_keys_lower = header_keys_lower host maps.exact;
      body = serialized;
      original_body = body;
      full_url = url;
      delay = record_delay host response;
      sse_events = recorded_events host is_sse body;
      is_sse = is_sse;
    })

  unfoldable pub parse_parts : Bytes → Assoc (Json F) → Result (MockResponse F)
  parse_parts fallback top = do
    request ← or_error invalid_record (as_obj (value_at (codes "request") top))
    response ← or_error invalid_record (as_obj (value_at (codes "response") top))
    let url = str_or_empty (value_at (codes "url") request)
    path ← request_path host url
    build_response fallback request response url path

  unfoldable pub parse_mock_record : Bytes → Bytes → Result (MockResponse F)
  unfolding as_record parse_parts
  parse_mock_record bytes fallback = do
    j ← or_error invalid_json (host.unmarshal bytes)
    top ← as_record j
    parse_parts fallback top

  unfoldable pub load_response_from_file : FileSystem → Bytes → Bytes → Result (MockResponse F)
  unfolding parse_mock_record
  load_response_from_file files path fallback = do
    bytes ← or_error read_failed (files.read_file path)
    parse_mock_record bytes fallback
