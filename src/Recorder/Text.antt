-- ===== src/Recorder/Text.antt =====
-- A recorded response whose body is no JSON is replayed byte for byte.
use auto_mock_tools.Prelude.{
  ◌≡◌, refl, ap, ◌∙◌, true, false, [], ◌∷◌, none, some, Bytes, codes, equal, is_empty, Assoc,
  lookup, ok,
}
use auto_mock_tools.Json.{Json, str, value_at}
use auto_mock_tools.Host.{Host}
use auto_mock_tools.Storage.Types.{MockResponse}
use auto_mock_tools.Loader.{build_response, parse_mock_record}
use auto_mock_tools.Loader.Fields.{text_at, request_path, header_maps, record_content_type}
use auto_mock_tools.Loader.Body.{
  event_stream, decoded_body, gunzipped_body, body_bytes, plain_body_bytes,
}
use auto_mock_tools.Recorder.{
  RequestData, Upstream, Disk, json_or_text, body_data, recorded_headers, request_fields,
  response_fields, record_json, record_pair, upstream_type, sanitize_content_type,
}
use auto_mock_tools.Recorder.Replay.{
  RoundTrips, parse_mock_record-record_json, parse_parts-record, save-eq-ok,
}

module _ {F : Type 0} (host : Host F) where
  -- a text that is not gzipped, or not a text: the body stays
  decoded_body-plain :
      (lower : Assoc Bytes) (s : Bytes)
      → equal (text_at (codes "content-encoding") lower) (codes "gzip") ≡ false
      → decoded_body host lower (str s) ≡ str s
  unfolding decoded_body
  decoded_body-plain lower [] h = refl
  decoded_body-plain lower (c ∷ s) h = rw h refl

  decoded_body-gzip :
      (lower : Assoc Bytes) (encoded zipped plain : Bytes)
      → equal (text_at (codes "content-encoding") lower) (codes "gzip") ≡ true
      → is_empty encoded ≡ false
      → host.base64_decode encoded ≡ some zipped
      → host.gunzip zipped ≡ some plain
      → host.unmarshal plain ≡ none
      → decoded_body host lower (str encoded) ≡ str plain
  unfolding decoded_body gunzipped_body
  decoded_body-gzip lower encoded zipped plain gzip some_text decoded unzipped no_json =
      rw (some_text, gzip, gunzipped_body, decoded, unzipped, no_json) refl

  body_bytes-text :
      (content_type s : Bytes)
      → equal content_type event_stream ≡ false
      → body_bytes host content_type (str s) ≡ ok s
  unfolding body_bytes plain_body_bytes
  body_bytes-text content_type s h = rw h refl

  build_response-text :
      (fallback : Bytes) (request response : Assoc (Json F)) (url path text : Bytes)
      → decoded_body host (header_maps host response).lower (value_at (codes "body") response)
        ≡ str text
      → equal (record_content_type host (header_maps host response).lower) event_stream ≡ false
      → (r : MockResponse F) × (build_response host fallback request response url path ≡ ok r)
        × (r.body ≡ text)
  unfolding build_response
  build_response-text fallback request response url path text body plain =
      rw (body, body_bytes-text _ text plain) (_, refl, refl)

module _ {F : Type 0} (host : Host F) (disk : Disk) (base_dir : Bytes) (request : RequestData F)
    (response : Upstream) (delay : F) where
  -- the response object of a recorded pair
  abbrev pub pair_response : Assoc (Json F)
  pair_response =
      response_fields host disk request response.status_code
        (recorded_headers host request response) (body_data host response) delay

  -- the headers of the recorded response, as the loader reads them
  abbrev pub loaded_headers : Assoc Bytes
  loaded_headers = (header_maps host pair_response).lower

  pair_replays_text :
      (fallback file bytes path text : Bytes)
      → record_pair host disk base_dir request response delay ≡ ok (file, bytes)
      → RoundTrips host (record_json host (request_fields host request) pair_response)
      → request_path host request.url ≡ ok path
      → equal (record_content_type host loaded_headers) event_stream ≡ false
      → decoded_body host loaded_headers (body_data host response) ≡ str text
      → (r : MockResponse F) × (parse_mock_record host bytes fallback ≡ ok r) × (r.body ≡ text)
  unfolding record_pair lookup equal
  pair_replays_text fallback file bytes path text saved back parsed plain body =
      let marshalled =
        save-eq-ok host disk base_dir request
          (sanitize_content_type host (upstream_type host response))
          (record_json host (request_fields host request) pair_response) file bytes saved in
      let (r, built, kept) =
        build_response-text host fallback (request_fields host request) pair_response request.url
          path text body plain in
      (
        r,
        parse_mock_record-record_json host (request_fields host request) pair_response bytes
              fallback (back bytes marshalled)
            ∙ parse_parts-record host (request_fields host request) pair_response fallback
                request.url path refl parsed
            ∙ built,
        kept,
      )

  body_data-text :
      equal (response.peek (codes "Content-Encoding")) (codes "gzip") ≡ false
      → equal (upstream_type host response) event_stream ≡ false
      → host.unmarshal response.body ≡ none
      → body_data host response ≡ str response.body
  unfolding body_data json_or_text
  body_data-text no_gzip plain no_json = rw (no_gzip, plain, json_or_text, no_json) refl

  body_data-gzip :
      equal (response.peek (codes "Content-Encoding")) (codes "gzip") ≡ true
      → body_data host response ≡ str (host.base64_encode response.body)
  unfolding body_data
  body_data-gzip gzip = rw gzip refl

  -- A response that RecordPair writes is replayed with the upstream body byte for byte, if that
  -- body is no JSON, neither the response's headers nor the recorded ones name gzip or an event
  -- stream, the URL parses, and the JSON text is read back as it was written.
  pub record_pair_replays :
      (fallback file bytes path : Bytes)
      → record_pair host disk base_dir request response delay ≡ ok (file, bytes)
      → RoundTrips host (record_json host (request_fields host request) pair_response)
      → request_path host request.url ≡ ok path
      → equal (response.peek (codes "Content-Encoding")) (codes "gzip") ≡ false
      → equal (upstream_type host response) event_stream ≡ false
      → host.unmarshal response.body ≡ none
      → equal (record_content_type host loaded_headers) event_stream ≡ false
      → equal (text_at (codes "content-encoding") loaded_headers) (codes "gzip") ≡ false
      → (r : MockResponse F) × (parse_mock_record host bytes fallback ≡ ok r)
        × (r.body ≡ response.body)
  record_pair_replays fallback file bytes path saved back parsed no_gzip plain no_json plain'
        no_gzip' =
      pair_replays_text fallback file bytes path response.body saved back parsed plain' (
        ap (decoded_body host loaded_headers) (body_data-text no_gzip plain no_json)
        ∙ decoded_body-plain host loaded_headers response.body no_gzip')

  -- A gzipped response is recorded as it came and replayed unzipped, if the text inside is no
  -- JSON and no event stream, base64 decodes what it encoded, the recorded headers name gzip, the
  -- URL parses, and the JSON text is read back as it was written.
  pub record_pair_unzips :
      (fallback file bytes path plain : Bytes)
      → record_pair host disk base_dir request response delay ≡ ok (file, bytes)
      → RoundTrips host (record_json host (request_fields host request) pair_response)
      → request_path host request.url ≡ ok path
      → equal (response.peek (codes "Content-Encoding")) (codes "gzip") ≡ true
      → is_empty (host.base64_encode response.body) ≡ false
      → host.base64_decode (host.base64_encode response.body) ≡ some response.body
      → host.gunzip response.body ≡ some plain
      → host.unmarshal plain ≡ none
      → equal (record_content_type host loaded_headers) event_stream ≡ false
      → equal (text_at (codes "content-encoding") loaded_headers) (codes "gzip") ≡ true
      → (r : MockResponse F) × (parse_mock_record host bytes fallback ≡ ok r) × (r.body ≡ plain)
  record_pair_unzips fallback file bytes path plain saved back parsed gzip not_empty decoded
        unzipped no_json no_stream gzip' =
      pair_replays_text fallback file bytes path plain saved back parsed no_stream (
        ap (decoded_body host loaded_headers) (body_data-gzip gzip)
        ∙ decoded_body-gzip host loaded_headers (host.base64_encode response.body) response.body
            plain gzip' not_empty decoded unzipped no_json)
