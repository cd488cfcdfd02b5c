-- ===== src/Proxy/Replay.antt =====
-- From the upstream server's stream to the mock server's answer.
use auto_mock_tools.Prelude.{
  ◌≡◌, refl, sym, ◌∙◌, List, some, codes, lookup, equal, Bytes, Assoc, All, ok, ℕ,
}
use auto_mock_tools.Json.{Json}
use auto_mock_tools.Host.{Host, ℤ}
use auto_mock_tools.Storage.Types.{MockResponse}
use auto_mock_tools.Loader.{parse_mock_record}
use auto_mock_tools.Loader.Fields.{request_path, header_maps, record_content_type}
use auto_mock_tools.Loader.Body.{event_stream}
use auto_mock_tools.Recorder.{RequestData, Disk, request_fields, record_json, record_sse_pair}
use auto_mock_tools.Recorder.Replay.{
  RoundTrips, sse_response, record_sse_pair-ReplaysEvents, save-eq-ok,
  parse_mock_record-record_json, parse_parts-record,
}
use auto_mock_tools.Loader.Placed.{IsPlacedAt, build_response-IsPlacedAt}
use auto_mock_tools.Proxy.Relay.{relay_start, relay_lines}
use auto_mock_tools.Proxy.Relay.Replay.{
  IsData, lines_of, stream_of, replay_of, relay_lines_normalizes,
}

module _ {F : Type 0} (host : Host F) (clock : ℕ → F) (disk : Disk) (base_dir : Bytes)
    (request : RequestData F) (status_code : ℤ) (delay : F) (saved_headers : Assoc Bytes)
    (ps : List Bytes) where
  abbrev pub relayed_events : List (Json F)
  relayed_events = (relay_lines host clock relay_start (lines_of ps)).events

  abbrev pub relayed_response : Assoc (Json F)
  relayed_response =
      sse_response host disk base_dir request status_code relayed_events delay saved_headers

  -- What was written is read back as the record.
  unmarshal-record :
      (file bytes : Bytes)
      → record_sse_pair host disk base_dir request status_code relayed_events delay saved_headers
        ≡ ok (file, bytes)
      → RoundTrips host (record_json host (request_fields host request) relayed_response)
      → host.unmarshal bytes
        ≡ some (record_json host (request_fields host request) relayed_response)
  unfolding record_sse_pair
  unmarshal-record file bytes saved back = back bytes (
      save-eq-ok host disk base_dir request (codes "text_event-stream")
        (record_json host (request_fields host request) relayed_response) file bytes saved)

  -- The loaded stream stands at the path, method, mock id and content type of its record.
  pub recorded-IsPlacedAt :
      (fallback file bytes path : Bytes) (r : MockResponse F)
      → record_sse_pair host disk base_dir request status_code relayed_events delay saved_headers
        ≡ ok (file, bytes)
      → RoundTrips host (record_json host (request_fields host request) relayed_response)
      → request_path host request.url ≡ ok path
      → parse_mock_record host bytes fallback ≡ ok r
      → IsPlacedAt host fallback (request_fields host request) relayed_response path r
  unfolding lookup equal
  recorded-IsPlacedAt fallback file bytes path r saved back parsed loaded =
      build_response-IsPlacedAt host fallback (request_fields host request) relayed_response
        request.url path r
        (sym (
            parse_mock_record-record_json host (request_fields host request) relayed_response bytes
              fallback (unmarshal-record file bytes saved back)
            ∙ parse_parts-record host (request_fields host request) relayed_response fallback
                request.url path refl parsed)
          ∙ loaded)

  -- A stream of data lines that is relayed, recorded and loaded again gives a response whose body
  -- is what its payloads come back as, while the client gets the stream byte for byte, if each
  -- payload stands on one line and is left alone by trimming, the file is written, its URL parses,
  -- its recorded headers name an event stream, and its JSON text is read back as it was written.
  pub relay_record_load :
      (fallback file bytes path : Bytes)
      → All (IsData host) ps
      → record_sse_pair host disk base_dir request status_code relayed_events delay saved_headers
        ≡ ok (file, bytes)
      → RoundTrips host (record_json host (request_fields host request) relayed_response)
      → request_path host request.url ≡ ok path
      → record_content_type host (header_maps host relayed_response).lower ≡ event_stream
      → (r : MockResponse F) × (parse_mock_record host bytes fallback ≡ ok r)
        × (r.body ≡ replay_of host ps)
        × ((relay_lines host clock relay_start (lines_of ps)).sent ≡ stream_of ps)
  relay_record_load fallback file bytes path payloads saved back parsed stream =
      let (r, loaded, kept) =
        record_sse_pair-ReplaysEvents host disk base_dir request status_code relayed_events delay
          saved_headers fallback file bytes path saved back parsed stream in
      let (sent, replayed) = relay_lines_normalizes host clock ps payloads in
      (r, loaded, kept.body ∙ replayed, sent)
