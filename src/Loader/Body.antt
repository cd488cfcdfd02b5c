-- ===== src/Loader/Body.antt =====
-- pkg/storage/record_loader.go: the response body, its bytes and its SSE events.
use auto_mock_tools.Prelude.{
  Bool, true, false, List, [], ◌∷◌, ◌++◌, Option, none, some, if◌then◌else◌, Bytes, codes, equal,
  is_empty, Assoc, lookup, Result, ok, marshal_failed, or_error,
}
use auto_mock_tools.Json.{Json, str, arr, obj, item_list, field_list, as_str, as_num, value_at}
use auto_mock_tools.Host.{Host}
use auto_mock_tools.Storage.Types.{SseEvent}
use auto_mock_tools.Loader.Fields.{text_at}

abbrev pub event_stream : Bytes
event_stream = codes "text/event-stream"

-- `data: <data>\n\n`
unfoldable pub data_event : Bytes → Bytes
data_event serialized = codes "data: " ++ serialized ++ codes "\n\n"

module _ {F : Type 0} where
  -- the text that ends a stream
  unfoldable pub is_done : Json F → Bool
  is_done (str s) = equal s (codes "[DONE]")
  is_done _ = false

module _ {F : Type 0} (host : Host F) where
  -- the JSON, or else the text, in a gzipped body that decodes
  unfoldable pub gunzipped_body : Json F → Bytes → Json F
  gunzipped_body body encoded = elim (host.base64_decode encoded) [
    | none ↦ body
    | some zipped ↦ elim (host.gunzip zipped) [
      | none ↦ body
      | some plain ↦ elim (host.unmarshal plain) [ none ↦ str plain | some j ↦ j ]
    ]
  ]

  unfoldable pub decoded_body : Assoc Bytes → Json F → Json F
  unfolding gunzipped_body
  decoded_body lower body = elim (as_str body) [
    | none ↦ body
    | some s ↦
        if is_empty s
        then body
        else if equal (text_at (codes "content-encoding") lower) (codes "gzip")
        then gunzipped_body body s
        else body
  ]

  -- nothing for a value that cannot be marshalled
  unfoldable pub marshal_event : Json F → Bytes
  unfolding data_event
  marshal_event j = elim (host.marshal j) [ none ↦ [] | some bytes ↦ data_event bytes ]

  unfoldable pub sse_chunk : Json F → Bytes
  unfolding marshal_event is_done
  sse_chunk (obj event) = elim (lookup (codes "data") (field_list event)) [
    | none ↦ []
    | some payload ↦ if is_done payload then codes "data: [DONE]\n\n" else marshal_event payload
  ]
  sse_chunk event = marshal_event event

  -- the loop over the events, with the text that is built
  unfoldable pub sse_body_from : Bytes → List (Json F) → Bytes
  unfolding sse_chunk
  sse_body_from built [] = built
  sse_body_from built (event ∷ events) = sse_body_from (built ++ sse_chunk event) events

  unfoldable pub sse_body_bytes : Json F → Bytes
  unfolding sse_body_from
  sse_body_bytes (arr events) = sse_body_from [] (item_list events)
  sse_body_bytes (str s) = s
  sse_body_bytes _ = []

  unfoldable pub plain_body_bytes : Json F → Result Bytes
  plain_body_bytes (str s) = ok s
  plain_body_bytes j = or_error marshal_failed (host.marshal j)

  unfoldable pub body_bytes : Bytes → Json F → Result Bytes
  unfolding sse_body_bytes plain_body_bytes
  body_bytes content_type body =
      if equal content_type event_stream then ok (sse_body_bytes body) else plain_body_bytes body

  unfoldable pub serialized_payload : Json F → Bytes
  unfolding is_done
  serialized_payload payload =
      if is_done payload
      then codes "[DONE]"
      else elim (host.marshal payload) [ none ↦ [] | some bytes ↦ bytes ]

  unfoldable pub sse_event : Json F → Option (SseEvent F)
  unfolding serialized_payload
  sse_event (obj event) = elim (lookup (codes "data") (field_list event)) [
    | none ↦ none
    | some payload ↦ some (record {
      payload = payload;
      timestamp = elim (as_num (value_at (codes "timestamp") (field_list event))) [
        | none ↦ host.zero
        | some t ↦ t
      ];
      serialized_data = serialized_payload payload;
    })
  ]
  sse_event _ = none

  unfoldable pub sse_events_of : List (Json F) → List (SseEvent F)
  unfolding sse_event
  sse_events_of [] = []
  sse_events_of (j ∷ js) = elim (sse_event j) [
    | none ↦ sse_events_of js
    | some e ↦ e ∷ sse_events_of js
  ]

  -- the events of an event stream whose body is an array
  unfoldable pub recorded_events : Bool → Json F → List (SseEvent F)
  unfolding sse_events_of
  recorded_events true (arr events) = sse_events_of (item_list events)
  recorded_events _ _ = []
