-- ===== src/Recorder/Timed.antt =====
-- Recorded events with their times, as the record loader reads them back.
use auto_mock_tools.Prelude.{
  ◌≡◌, refl, sym, ap, ◌∙◌, true, List, [], ◌∷◌, ◌++◌, none, some, if◌then◌else◌, Bytes, codes,
  equal, Assoc, lookup, ok,
}
use auto_mock_tools.Json.{Json, str, num, obj, fields}
use auto_mock_tools.Host.{Host, ℤ}
use auto_mock_tools.Storage.Types.{MockResponse, SseEvent}
use auto_mock_tools.Loader.{parse_mock_record}
use auto_mock_tools.Loader.Fields.{request_path, header_maps, record_content_type}
use auto_mock_tools.Loader.Body.{
  event_stream, data_event, is_done, marshal_event, serialized_payload, sse_chunk, sse_event,
  sse_events_of, sse_body_from,
}
use auto_mock_tools.Recorder.{RequestData, Disk, request_fields, record_json, record_sse_pair}
use auto_mock_tools.Recorder.Replay.{RoundTrips, sse_response, record_sse_pair-ReplaysEvents}
use mathlib.Core.List.{append_assoc, append-nil}

module _ {F : Type 0} where
  -- The events of a record: objects with the data and the time of each.
  abbrev pub timed_events : List (Json F × F) → List (Json F)
  timed_events [] = []
  timed_events ((payload, time) ∷ ts) =
      obj (fields ((codes "data", payload) ∷ (codes "timestamp", num time) ∷ [])) ∷ timed_events ts

module _ {F : Type 0} (host : Host F) where
  -- the JSON text of a value, nothing for one that has none
  abbrev text_or_nil : Json F → Bytes
  text_or_nil j = elim (host.marshal j) [ none ↦ [] | some bytes ↦ bytes ]

  -- The text of an event: the end marker as it is, and else JSON.
  abbrev pub text_of : Json F → Bytes
  text_of (str s) = if equal s (codes "[DONE]") then codes "[DONE]" else text_or_nil (str s)
  text_of j = text_or_nil j

  abbrev bytes_or_nil : Json F → Bytes
  bytes_or_nil j = elim (host.marshal j) [
    | none ↦ []
    | some bytes ↦ codes "data: " ++ bytes ++ codes "\n\n"
  ]

  -- The bytes of an event in the stream, nothing for a value that has no JSON text.
  abbrev pub bytes_of : Json F → Bytes
  bytes_of (str s) =
      if equal s (codes "[DONE]") then codes "data: [DONE]\n\n" else bytes_or_nil (str s)
  bytes_of j = bytes_or_nil j

  -- Each event, in order, with its data, its time and its text.
  abbrev pub events_loaded : List (Json F × F) → List (SseEvent F)
  events_loaded [] = []
  events_loaded ((payload, time) ∷ ts) =
      record { payload = payload; timestamp = time; serialized_data = text_of payload }
      ∷ events_loaded ts

  abbrev pub stream_loaded : List (Json F × F) → Bytes
  stream_loaded [] = []
  stream_loaded ((payload, time) ∷ ts) = bytes_of payload ++ stream_loaded ts

  serialized_payload-text_of : (j : Json F) → serialized_payload host j ≡ text_of j
  unfolding serialized_payload is_done
  serialized_payload-text_of (str s) = refl
  serialized_payload-text_of j = refl

  sse_events_of-timed_events :
      (ts : List (Json F × F)) → sse_events_of host (timed_events ts) ≡ events_loaded ts
  unfolding sse_events_of sse_event lookup equal
  sse_events_of-timed_events [] = refl
  sse_events_of-timed_events ((payload, time) ∷ ts) =
      rw (serialized_payload-text_of payload, sse_events_of-timed_events ts) refl

  payload_bytes :
      (j : Json F)
      → (if is_done j then codes "data: [DONE]\n\n" else marshal_event host j) ≡ bytes_of j
  unfolding marshal_event is_done data_event
  payload_bytes (str s) = refl
  payload_bytes j = refl

  sse_chunk-timed :
      (payload : Json F) (time : F)
      → sse_chunk host (obj (fields ((codes "data", payload) ∷ (codes "timestamp", num time) ∷ [])))
        ≡ bytes_of payload
  unfolding sse_chunk lookup equal
  sse_chunk-timed payload time = payload_bytes payload

  sse_body_from-timed_events :
      (built : Bytes) (ts : List (Json F × F))
      → sse_body_from host built (timed_events ts) ≡ built ++ stream_loaded ts
  unfolding sse_body_from
  sse_body_from-timed_events built [] = sym (append-nil built)
  sse_body_from-timed_events built ((payload, time) ∷ ts) =
      ap (λ chunk. sse_body_from host (built ++ chunk) (timed_events ts))
        (sse_chunk-timed payload time)
      ∙ sse_body_from-timed_events (built ++ bytes_of payload) ts
      ∙ append_assoc built (bytes_of payload) (stream_loaded ts)

  module _ (disk : Disk) (base_dir : Bytes) (request : RequestData F) (status_code : ℤ)
      (ts : List (Json F × F)) (delay : F) (saved_headers : Assoc Bytes) where
    abbrev pub timed_response : Assoc (Json F)
    timed_response =
        sse_response host disk base_dir request status_code (timed_events ts) delay saved_headers

    -- A stream that RecordSSEPair writes, with events that are objects of a data and a timestamp,
    -- is loaded with an event for each, in order, with its data, its timestamp and its text, and
    -- with the recorded delay, and its body is the stream of these data. The text of the end
    -- marker is itself, that of other data its JSON, and data with no JSON has the empty text and
    -- is left out of the stream. The conditions: the file is written, its URL parses, its
    -- recorded headers name an event stream, and its JSON text is read back as it was written.
    pub record_sse_pair_replays :
        (fallback file bytes path : Bytes)
        → record_sse_pair host disk base_dir request status_code
            (timed_events ts)
            delay
            saved_headers
          ≡ ok (file, bytes)
        → RoundTrips host (record_json host (request_fields host request) timed_response)
        → request_path host request.url ≡ ok path
        → record_content_type host (header_maps host timed_response).lower ≡ event_stream
        → (r : MockResponse F) × (parse_mock_record host bytes fallback ≡ ok r)
          × (r.is_sse ≡ true)
          × (r.sse_events ≡ events_loaded ts)
          × (r.body ≡ stream_loaded ts)
          × (r.delay ≡ delay)
    record_sse_pair_replays fallback file bytes path saved back parsed stream =
        let (r, loaded, kept) =
          record_sse_pair-ReplaysEvents host disk base_dir request status_code (timed_events ts)
            delay saved_headers fallback file bytes path saved back parsed stream in
        (
          r,
          loaded,
          kept.is_sse,
          kept.sse_events ∙ sse_events_of-timed_events ts,
          kept.body ∙ sse_body_from-timed_events [] ts,
          kept.delay_kept,
        )
