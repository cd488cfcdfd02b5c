-- ===== src/Handlers/Stream/Replay.antt =====
-- The bytes of a stream that is replayed with timing.
use mathlib.Core.List.{append-nil, append_assoc}
use auto_mock_tools.Prelude.{
  ◌≡◌, refl, sym, ap, ◌∙◌, Bool-cases, true, ◌⊎◌, inl, inr, List, [], ◌∷◌, ◌++◌, some,
  if◌then◌else◌, Bytes, codes, lookup, All,
}
use auto_mock_tools.Json.{Json, null, bool, num, str, arr, obj, field_list}
use auto_mock_tools.Host.{Host}
use auto_mock_tools.Storage.Types.{SseEvent}
use auto_mock_tools.Loader.Body.{
  data_event, is_done, marshal_event, sse_chunk, sse_body_from, serialized_payload, sse_event,
  sse_events_of,
}
use auto_mock_tools.Handlers.Stream.{stream_to, written}

module _ {F : Type 0} (host : Host F) where
  -- The item of a recorded stream is an object whose "data" is the end marker or can be marshalled.
  abbrev pub IsEvent : Json F → Type 0
  IsEvent (obj event) =
      (payload : Json F) × (lookup (codes "data") (field_list event) ≡ some payload)
      × ((is_done payload ≡ true) ⊎ ((bytes : Bytes) × (host.marshal payload ≡ some bytes)))
  IsEvent _ = ⊥

  written-stream_to :
      (scale : F) (e : SseEvent F) (es : List (SseEvent F))
      → written (stream_to host scale (e ∷ es))
        ≡ data_event e.serialized_data ++ written (stream_to host scale es)
  unfolding written stream_to data_event
  written-stream_to scale e es = simp append_assoc

  payload_chunk :
      (payload : Json F)
      → (is_done payload ≡ true) ⊎ ((bytes : Bytes) × (host.marshal payload ≡ some bytes))
      → (if is_done payload then codes "data: [DONE]\n\n" else marshal_event host payload)
        ≡ data_event (serialized_payload host payload)
  unfolding data_event serialized_payload marshal_event
  payload_chunk payload (inl done) = rw done refl
  payload_chunk payload (inr (bytes, marshalled)) = elim (Bool-cases (is_done payload)) [
    | inl done ↦ rw done refl
    | inr other ↦ rw (other, marshal_event, marshalled) refl
  ]

  chunk-event :
      (j : Json F)
      → IsEvent j
      → (e : SseEvent F) × (sse_event host j ≡ some e)
        × (sse_chunk host j ≡ data_event e.serialized_data)
  unfolding sse_event sse_chunk data_event
  chunk-event null h = elim h [ ]
  chunk-event (bool b) h = elim h [ ]
  chunk-event (num x) h = elim h [ ]
  chunk-event (str s) h = elim h [ ]
  chunk-event (arr js) h = elim h [ ]
  chunk-event (obj event) (payload, at, known) =
      rw (sse_event, sse_chunk, at) (_, refl, payload_chunk payload known)

  pub sse_body_from_built :
      (built : Bytes) (js : List (Json F))
      → sse_body_from host built js ≡ built ++ sse_body_from host [] js
  unfolding sse_body_from
  sse_body_from_built built [] = sym (append-nil built)
  sse_body_from_built built (j ∷ js) =
      sse_body_from_built (built ++ sse_chunk host j) js
      ∙ append_assoc built (sse_chunk host j) (sse_body_from host [] js)
      ∙ ap (λ bytes. built ++ bytes) (sym (sse_body_from_built (sse_chunk host j) js))

  sse_events_of_cons :
      (j : Json F) (js : List (Json F)) (e : SseEvent F)
      → sse_event host j ≡ some e
      → sse_events_of host (j ∷ js) ≡ e ∷ sse_events_of host js
  unfolding sse_events_of
  sse_events_of_cons j js e h = rw (sse_events_of, h) refl

  -- The bytes that StreamTo writes for a recorded stream, at every jitter scale, are the bytes
  -- that are served without timing, if each recorded event is an object whose data is the end
  -- marker or can be marshalled.
  pub stream_to_sse_body :
      (scale : F) (js : List (Json F))
      → All IsEvent js
      → written (stream_to host scale (sse_events_of host js)) ≡ sse_body_from host [] js
  unfolding sse_body_from sse_events_of stream_to written
  stream_to_sse_body scale [] h = refl
  stream_to_sse_body scale (j ∷ js) h =
      let (e, event, chunk) = chunk-event j h.0 in
      ap (λ es. written (stream_to host scale es)) (sse_events_of_cons j js e event)
      ∙ written-stream_to scale e (sse_events_of host js)
      ∙ ap (λ bytes. data_event e.serialized_data ++ bytes) (stream_to_sse_body scale js h.1)
      ∙ ap (λ bytes. bytes ++ sse_body_from host [] js) (sym chunk)
      ∙ sym (sse_body_from_built (sse_chunk host j) js)
