-- ===== src/Recorder/Replay.antt =====
-- Recorded pairs as the record loader reads them back.
use auto_mock_tools.Prelude.{
  ◌≡◌, refl, ap, ◌∙◌, true, Bool-cases, inl, inr, List, [], ◌∷◌, Option, none, some, Bytes, codes,
  equal, Assoc, lookup, ok, err, or_error, >>=-eq-ok, ok_injective, marshal_failed, write_failed,
  Error,
}
use auto_mock_tools.Json.{Json, str, arr, obj, item_list, items, field_list, fields, value_at}
use auto_mock_tools.Host.{Host, ℤ}
use auto_mock_tools.Storage.Types.{MockResponse}
use auto_mock_tools.Loader.{build_response, as_record, parse_parts, parse_mock_record}
use auto_mock_tools.Loader.Fields.{request_path, header_maps, record_content_type, record_delay}
use auto_mock_tools.Loader.Body.{
  event_stream, decoded_body, body_bytes, sse_body_from, sse_body_bytes, sse_events_of,
  recorded_events,
}
use auto_mock_tools.Recorder.{
  RequestData, Disk, request_fields, response_fields, record_json, save, record_sse_pair,
  with_mock_id, mock_dir, written_to,
}

module _ {F : Type 0} where
  item_list-items : (js : List (Json F)) → item_list (items js) ≡ js
  item_list-items [] = refl
  item_list-items (j ∷ js) = ap (◌∷◌ j) (item_list-items js)

  field_list-fields : (m : Assoc (Json F)) → field_list (fields m) ≡ m
  field_list-fields [] = refl
  field_list-fields ((k, j) ∷ m) = ap (◌∷◌ (k, j)) (field_list-fields m)

pub or_error-eq-ok {ℓ} :
    {V : Type ℓ} (e : Error) (o : Option V) (v : V) → or_error e o ≡ ok v → o ≡ some v
or_error-eq-ok e none v h = cc
or_error-eq-ok e (some w) v h = ap some (ok_injective h)

module _ {F : Type 0} (host : Host F) where
  -- Text that is marshalled from the value is read back as the value.
  abbrev pub RoundTrips : Json F → Type 0
  RoundTrips j =
      (bytes : Bytes) → host.marshal_indent j ≡ some bytes → host.unmarshal bytes ≡ some j

  pub parse_mock_record-record_json :
      (request response : Assoc (Json F)) (bytes fallback : Bytes)
      → host.unmarshal bytes ≡ some (record_json host request response)
      → parse_mock_record host bytes fallback
        ≡ parse_parts host fallback (
            (codes "request", obj (fields request))
            ∷ (codes "response", obj (fields response))
            ∷ [])
  unfolding parse_mock_record as_record
  parse_mock_record-record_json request response bytes fallback read = rw read refl

  pub parse_parts-record :
      (request response : Assoc (Json F)) (fallback url path : Bytes)
      → value_at (codes "url") request ≡ str url
      → request_path host url ≡ ok path
      → parse_parts host fallback
          ((codes "request", obj (fields request)) ∷ (codes "response", obj (fields response)) ∷ [])
        ≡ build_response host fallback request response url path
  unfolding parse_parts lookup equal
  parse_parts-record request response fallback url path at parsed =
      rw (field_list-fields, field_list-fields, at, parsed) refl

  body_bytes-events :
      (events : List (Json F))
      → body_bytes host event_stream (arr (items events)) ≡ ok (sse_body_from host [] events)
  unfolding body_bytes sse_body_bytes equal
  body_bytes-events events = ap (λ js. ok (sse_body_from host [] js)) (item_list-items events)

  recorded_events-events :
      (events : List (Json F))
      → recorded_events host (equal event_stream event_stream) (arr (items events))
        ≡ sse_events_of host events
  unfolding recorded_events equal
  recorded_events-events events = ap (sse_events_of host) (item_list-items events)

  -- what a replayed stream keeps of its events
  pub record ReplaysEvents (events : List (Json F)) (delay : F) (r : MockResponse F) : Type 0 where
    pub is_sse : r.is_sse ≡ true
    pub sse_events : r.sse_events ≡ sse_events_of host events
    pub body : r.body ≡ sse_body_from host [] events
    pub delay_kept : r.delay ≡ delay

  build_response-events :
      (fallback : Bytes) (request response : Assoc (Json F)) (url path : Bytes)
      (events : List (Json F))
      → value_at (codes "body") response ≡ arr (items events)
      → record_content_type host (header_maps host response).lower ≡ event_stream
      → (r : MockResponse F) × (build_response host fallback request response url path ≡ ok r)
        × ReplaysEvents events (record_delay host response) r
  unfolding build_response decoded_body equal
  build_response-events fallback request response url path events body stream =
      rw (body, stream, body_bytes-events)
        (
          _,
          refl,
          record {
            is_sse = refl;
            sse_events = recorded_events-events events;
            body = refl;
            delay_kept = refl;
          },
        )

module _ {F : Type 0} (host : Host F) (disk : Disk) (base_dir : Bytes) where
  pub written_to-eq-ok :
      (target bytes file written : Bytes)
      → written_to host disk base_dir target bytes ≡ ok (file, written)
      → (target ≡ file) × (bytes ≡ written)
  written_to-eq-ok target bytes file written h = elim (Bool-cases (disk.write_file target bytes)) [
    | inl done ↦
        let e : ok (target, bytes) ≡ ok (file, written) = rw done at h in
        (
          ap (λ (t : Bytes × Bytes). t.0) (ok_injective e),
          ap (λ (t : Bytes × Bytes). t.1) (ok_injective e),
        )
    | inr failed ↦ let e : err write_failed ≡ ok (file, written) = rw failed at h in cc
  ]

  -- What is written is the marshalled record.
  pub save-eq-ok :
      (request : RequestData F) (kind : Bytes) (j : Json F) (file bytes : Bytes)
      → save host disk base_dir request kind j ≡ ok (file, bytes)
      → host.marshal_indent j ≡ some bytes
  unfolding save
  save-eq-ok request kind j file bytes h =
      elim (Bool-cases (disk.make_dir_all (mock_dir host disk base_dir request))) [
        | inr failed ↦ let e : err write_failed ≡ ok (file, bytes) = rw failed at h in cc
        | inl made ↦
            let (text, marshalled, e) =
              >>=-eq-ok (or_error marshal_failed (host.marshal_indent j)) _ (rw made at h) in
            or_error-eq-ok marshal_failed (host.marshal_indent j) text marshalled
            ∙ ap some (written_to-eq-ok _ text file bytes e).1
      ]

  module _ (request : RequestData F) (status_code : ℤ) (events : List (Json F)) (delay : F)
      (saved_headers : Assoc Bytes) where
    -- the response object of a recorded stream
    abbrev pub sse_response : Assoc (Json F)
    sse_response =
        response_fields host disk request status_code
          (with_mock_id host request.mock_id saved_headers) (arr (items events)) delay

    -- A stream that RecordSSEPair writes is loaded, with the events that the loader keeps of it.
    pub record_sse_pair-ReplaysEvents :
        (fallback file bytes path : Bytes)
        → record_sse_pair host disk base_dir request status_code events delay saved_headers
          ≡ ok (file, bytes)
        → RoundTrips host (record_json host (request_fields host request) sse_response)
        → request_path host request.url ≡ ok path
        → record_content_type host (header_maps host sse_response).lower ≡ event_stream
        → (r : MockResponse F) × (parse_mock_record host bytes fallback ≡ ok r)
          × ReplaysEvents host events delay r
    unfolding record_sse_pair lookup equal record_delay
    record_sse_pair-ReplaysEvents fallback file bytes path saved back parsed stream =
        let marshalled =
          save-eq-ok request (codes "text_event-stream")
            (record_json host (request_fields host request) sse_response) file bytes saved in
        let (r, built, kept) =
          build_response-events host fallback (request_fields host request) sse_response request.url
            path events refl stream in
        (
          r,
          parse_mock_record-record_json host (request_fields host request) sse_response bytes
                fallback (back bytes marshalled)
              ∙ parse_parts-record host (request_fields host request) sse_response fallback
                  request.url path refl parsed
              ∙ built,
          kept,
        )
