-- ===== src/NotFound/Replay.antt =====
-- What the record loader makes of a logged request.
use auto_mock_tools.Prelude.{
  ◌≡◌, refl, ap, ◌∙◌, false, none, some, Bytes, codes, equal, is_empty, Assoc, lookup, ok, or_error,
  >>=-eq-ok, marshal_failed,
}
use auto_mock_tools.Json.{Json, as_str, null, bool, num, str, arr, obj, value_at}
use auto_mock_tools.Host.{Host}
use auto_mock_tools.Storage.Types.{MockResponse}
use auto_mock_tools.Loader.{build_response, parse_mock_record}
use auto_mock_tools.Loader.Fields.{
  request_path, header_maps, record_content_type, record_status_code, record_method,
}
use auto_mock_tools.Loader.Body.{event_stream, decoded_body, body_bytes, plain_body_bytes}
use auto_mock_tools.Recorder.{json_or_text, request_fields, Disk}
use auto_mock_tools.Recorder.Replay.{
  RoundTrips, parse_mock_record-record_json, parse_parts-record, or_error-eq-ok, written_to-eq-ok,
}
use auto_mock_tools.NotFound.{
  Exchange, logged_body, logged_request, logged_response, logged_record, log_not_found,
}

module _ {F : Type 0} (host : Host F) where
  -- a value that is no text is its own decoded body, and its bytes are its JSON
  decoded_body-no_text :
      (lower : Assoc Bytes) (j : Json F) → as_str j ≡ none → decoded_body host lower j ≡ j
  unfolding decoded_body
  decoded_body-no_text lower j h = rw (decoded_body, h) refl

  plain_body_bytes-no_text :
      (j : Json F) (bytes : Bytes)
      → as_str j ≡ none
      → host.marshal j ≡ some bytes
      → plain_body_bytes host j ≡ ok bytes
  unfolding plain_body_bytes
  plain_body_bytes-no_text null bytes h e = rw e refl
  plain_body_bytes-no_text (bool b) bytes h e = rw e refl
  plain_body_bytes-no_text (num x) bytes h e = rw e refl
  plain_body_bytes-no_text (str s) bytes h e = cc
  plain_body_bytes-no_text (arr js) bytes h e = rw e refl
  plain_body_bytes-no_text (obj fs) bytes h e = rw e refl

  body_bytes-plain :
      (content_type : Bytes) (j : Json F)
      → equal content_type event_stream ≡ false
      → body_bytes host content_type j ≡ plain_body_bytes host j
  unfolding body_bytes
  body_bytes-plain content_type j h = rw (body_bytes, h) refl

  -- The body is JSON that is no text, and marshalling its value gives it back.
  pub record IsJsonBody (body : Bytes) : Type 0 where
    pub value : Json F
    pub read : host.unmarshal body ≡ some value
    pub written : host.marshal value ≡ some body
    pub no_text : as_str value ≡ none

  logged_body-json :
      (body : Bytes) (h : IsJsonBody body) → is_empty body ≡ false → logged_body host body ≡ h.value
  unfolding logged_body json_or_text
  logged_body-json body h ne = rw (ne, json_or_text, h.read) refl

  -- what a built response takes over from the two objects of the file
  record Kept (request response : Assoc (Json F)) (path body : Bytes) (r : MockResponse F)
      : Type 0 where
    path_kept : r.path ≡ path
    method_kept : r.method ≡ record_method host request
    status_kept : r.status_code ≡ record_status_code host response
    body_kept : r.body ≡ body

  build_response-Kept :
      (fallback : Bytes) (request response : Assoc (Json F)) (url path : Bytes) (j : Json F)
      (body : Bytes)
      → decoded_body host (header_maps host response).lower (value_at (codes "body") response) ≡ j
      → body_bytes host (record_content_type host (header_maps host response).lower) j ≡ ok body
      → (r : MockResponse F) × (build_response host fallback request response url path ≡ ok r)
        × Kept request response path body r
  unfolding build_response
  build_response-Kept fallback request response url path j body decoded serialized =
      rw (decoded, serialized)
        (
          _,
          refl,
          record { path_kept = refl; method_kept = refl; status_kept = refl; body_kept = refl },
        )

module _ {F : Type 0} (host : Host F) (exchange : Exchange) where
  -- The response answers the logged request as it was answered.
  pub record Repeats (path : Bytes) (r : MockResponse F) : Type 0 where
    pub path_kept : r.path ≡ path
    pub method_kept : r.method ≡ exchange.method
    pub status_kept : r.status_code ≡ exchange.status_code
    pub body_kept : r.body ≡ exchange.response_body

module _ {F : Type 0} (host : Host F) (disk : Disk) (base_dir id time : Bytes)
    (exchange : Exchange) where
  -- the fields of the record
  abbrev request : Assoc (Json F)
  request = request_fields host (logged_request host id time exchange)

  abbrev response : Assoc (Json F)
  response = logged_response host disk id time exchange

  log_not_found-eq-ok :
      (file bytes : Bytes)
      → log_not_found host disk base_dir id time exchange ≡ ok (file, bytes)
      → host.marshal_indent (logged_record host disk id time exchange) ≡ some bytes
  unfolding log_not_found
  log_not_found-eq-ok file bytes h =
      let marshalled = host.marshal_indent (logged_record host disk id time exchange) in
      let (text, e, h') = >>=-eq-ok (or_error marshal_failed marshalled) _ h in
      or_error-eq-ok marshal_failed marshalled text e
      ∙ ap some (written_to-eq-ok host disk base_dir _ text file bytes h').1

  build_response-json :
      (fallback path : Bytes)
      → is_empty exchange.method ≡ false
      → host.to_int (host.of_int exchange.status_code) ≡ exchange.status_code
      → IsJsonBody host exchange.response_body
      → is_empty exchange.response_body ≡ false
      → equal (record_content_type host (header_maps host response).lower) event_stream ≡ false
      → (r : MockResponse F) × (build_response host fallback request response exchange.request_uri
            path
          ≡ ok r)
        × Repeats host exchange path r
  unfolding logged_request lookup equal record_status_code record_method
  build_response-json fallback path method status json ne plain =
      let (r, built, kept) =
        build_response-Kept host fallback request response exchange.request_uri path json.value
          exchange.response_body
          (ap (decoded_body host _) (logged_body-json host exchange.response_body json ne)
            ∙ decoded_body-no_text host _ json.value json.no_text)
          (body_bytes-plain host _ json.value plain
            ∙ plain_body_bytes-no_text host json.value exchange.response_body json.no_text
                json.written) in
      (
        r,
        built,
        record {
          path_kept = kept.path_kept;
          method_kept = kept.method_kept ∙ rw method refl;
          status_kept = kept.status_kept ∙ status;
          body_kept = kept.body_kept;
        },
      )

  -- The record of a 404 answer, put into a mock directory, loads as a mock for the same path and
  -- method that answers with the same status and body, if the record is written and its JSON text
  -- is read back as it was written, the request's URI parses, its method is not empty, the status
  -- is kept as float64, the body is JSON that is no text and that is marshalled as it was, and
  -- the recorded headers name no event stream.
  pub log_not_found_replays :
      (fallback file bytes path : Bytes)
      → log_not_found host disk base_dir id time exchange ≡ ok (file, bytes)
      → RoundTrips host (logged_record host disk id time exchange)
      → request_path host exchange.request_uri ≡ ok path
      → is_empty exchange.method ≡ false
      → host.to_int (host.of_int exchange.status_code) ≡ exchange.status_code
      → IsJsonBody host exchange.response_body
      → is_empty exchange.response_body ≡ false
      → equal (record_content_type host (header_maps host response).lower) event_stream ≡ false
      → (r : MockResponse F) × (parse_mock_record host bytes fallback ≡ ok r)
        × Repeats host exchange path r
  unfolding logged_request lookup equal
  log_not_found_replays fallback file bytes path saved back parsed method status json ne plain =
      let (r, built, kept) = build_response-json fallback path method status json ne plain in
      (
        r,
        parse_mock_record-record_json host request response bytes fallback
              (back bytes (log_not_found-eq-ok file bytes saved))
            ∙ parse_parts-record host request response fallback exchange.request_uri path refl
                parsed
            ∙ built,
        kept,
      )
