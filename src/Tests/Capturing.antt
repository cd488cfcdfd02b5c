-- ===== src/Tests/Capturing.antt =====
-- A test server behind the proxy, in a world in which its events are read and written as JSON.
use Prim.Native.Nat.{◌*◌}
use auto_mock_tools.Prelude.{
  ℕ, zero, suc, ◌≡◌, refl, sym, ap, ◌∙◌, Bool, ◌&&◌, ◌||◌, ◌==◌, if◌then◌else◌, length, [], ◌∷◌,
  ◌++◌, Option, none, some, Bytes, codes, equal, has_byte, is_empty, lookup, insert, cut_at,
  has_prefix, ok,
}
use auto_mock_tools.Ascii.{to_lower_ascii_simple}
use auto_mock_tools.Json.{Json, str, num, arr, obj, items, fields, field, end}
use auto_mock_tools.Host.{Host, ℤ, pos}
use auto_mock_tools.Storage.Types.{MockResponse}
use auto_mock_tools.Loader.{parse_mock_record}
use auto_mock_tools.Loader.Fields.{request_path, header_maps, record_content_type}
use auto_mock_tools.Loader.Body.{data_event}
use auto_mock_tools.Recorder.{
  Upstream, request_fields, response_fields, record_json, record_sse_pair, save, split,
  json_or_text,
}
use auto_mock_tools.Recorder.Replay.{RoundTrips}
use auto_mock_tools.Proxy.Forward.{request_data}
use auto_mock_tools.Proxy.Chunks.{read_chunks}
use auto_mock_tools.Proxy.Chunks.Encoded.{encode, IsHex}
use auto_mock_tools.Proxy.Relay.{relay_chunks, relay_line, data_lines_from, timed_event}
use auto_mock_tools.Proxy.Relay.Replay.{stream_of}
use auto_mock_tools.Proxy.Relay.Stuttered.{stuttered}
use auto_mock_tools.Proxy.Handle.{
  Network, streams, dispatch, handle, handle_sse_streaming, recorded_stream, relay_body,
  contains_text,
}
use auto_mock_tools.TestServers.{
  net_http, flushed, handler_of, test_event, decimal, flushed_from, sse_handler, test_events_from,
}
use auto_mock_tools.TestServers.Streams.{test_payloads}
use auto_mock_tools.TestServers.Captured.{
  compact_payloads, IsLineEnds, TrimsLineEnds, ReadsEvent, test_server_captured,
}
use auto_mock_tools.Tests.World.{host, codec}
use auto_mock_tools.Tests.Recording.{disk, request, stream_headers}
use auto_mock_tools.Tests.Replaying.{same_time}
use auto_mock_tools.Tests.Chunking.{tally, tally-one_line}
use auto_mock_tools.Tests.Streaming.{proxy, streaming, wanting}

-- line ends off both ends
abbrev is_end : ℕ → Bool
is_end c = (c == b'\n') || (c == b'\r')

abbrev trim_start : Bytes → Bytes
trim_start [] = []
trim_start (c ∷ s) = if is_end c then trim_start s else c ∷ s

abbrev trim_end : Bytes → Bytes
trim_end [] = []
trim_end (c ∷ s) = let rest = trim_end s in if is_empty rest && is_end c then [] else c ∷ rest

abbrev trim_ends : Bytes → Bytes
trim_ends s = trim_end (trim_start s)

abbrev scan_marks : Bytes → Option ℤ
scan_marks [] = none
scan_marks (c ∷ s) = some (pos (length s))

abbrev message : ℕ → Json ℕ
unfolding decimal
message i = obj (
    fields
      ((codes "event", str (codes "message_" ++ decimal i)) ∷ (codes "value", num (i * 10)) ∷ []))

abbrev timed : ℕ → ℕ → Json ℕ
timed i time = obj (fields ((codes "data", message i) ∷ (codes "timestamp", num time) ∷ []))

abbrev captured_record : Json ℕ
captured_record = record_json host (request_fields host request) (
    response_fields host disk request (pos 200) stream_headers
      (arr (items (timed 0 2 ∷ timed 1 5 ∷ timed 2 8 ∷ []))) 3)

abbrev reads_json : Bytes → Option (Json ℕ)
unfolding equal test_event decimal
reads_json bytes =
    if equal bytes (codes "{}")
    then some captured_record
    else if equal bytes (test_event 0)
    then some (message 0)
    else if equal bytes (test_event 1)
    then some (message 1)
    else if equal bytes (test_event 2)
    then some (message 2)
    else none

-- Only objects of a text and a number are marshalled.
abbrev writes_json : Json ℕ → Option Bytes
unfolding decimal
writes_json (obj (field _ (str event) (field _ (num value) end))) =
    some (codes "{\"event\":\"" ++ event ++ codes "\",\"value\":" ++ decimal value ++ codes "}")
writes_json _ = none

abbrev json_host : Host ℕ
json_host = record host {
  codec = record codec {
    trim_space = trim_ends;
    marshal = writes_json;
    marshal_indent = λ _. some (codes "{}");
    unmarshal = reads_json;
  };
}

trim_end-line_ends : (after : Bytes) → IsLineEnds json_host after → trim_end after ≡ []
trim_end-line_ends [] h = refl
trim_end-line_ends (c ∷ after) h = rw (trim_end-line_ends after h.1, h.0) refl

trim_end-braced :
    (inner after : Bytes)
    → IsLineEnds json_host after
    → trim_end ((inner ++ codes "}") ++ after) ≡ inner ++ codes "}"
trim_end-braced [] after h = rw (trim_end-line_ends after h) refl
trim_end-braced (c ∷ inner) after h = rw (trim_end-braced inner after h) (kept_end c inner)
  where
    kept_end :
        (c : ℕ) (inner : Bytes)
        → (if is_empty (inner ++ codes "}") && is_end c then [] else c ∷ (inner ++ codes "}"))
          ≡ c ∷ (inner ++ codes "}")
    kept_end c [] = refl
    kept_end c (d ∷ inner) = refl

trim_start-line_ends :
    (before s : Bytes) → IsLineEnds json_host before → trim_start (before ++ b'd' ∷ s) ≡ b'd' ∷ s
trim_start-line_ends [] s h = refl
trim_start-line_ends (c ∷ before) s h = rw h.0 (trim_start-line_ends before s h.1)

json_host-trims : TrimsLineEnds json_host
json_host-trims before inner after h k =
    ap trim_end (trim_start-line_ends before ((inner ++ codes "}") ++ after) h)
    ∙ trim_end-braced (b'd' ∷ inner) after k

trim_end-tally : (n : ℕ) → trim_end (tally n ++ codes "\r\n") ≡ tally n
trim_end-tally zero = refl
trim_end-tally (suc n) = rw (trim_end-tally n) (kept_mark n)
  where
    kept_mark :
        (n : ℕ)
        → (if is_empty (tally n) && is_end b'1' then [] else b'1' ∷ tally n) ≡ b'1' ∷ tally n
    kept_mark zero = refl
    kept_mark (suc n) = refl

length-tally : (n : ℕ) → length (tally n) ≡ suc n
length-tally zero = refl
length-tally (suc n) = ap suc (length-tally n)

json_host-IsHex : IsHex json_host scan_marks tally
json_host-IsHex = record { one_line = tally-one_line; scanned = scanned }
  where
    marks : (n : ℕ) → scan_marks (tally n) ≡ some (pos n)
    marks zero = refl
    marks (suc n) = ap (λ k. some (pos k)) (length-tally n)

    scanned : (n : ℕ) → scan_marks (trim_ends (tally n ++ codes "\r\n")) ≡ some (pos n)
    scanned zero = refl
    scanned (suc n) = ap scan_marks (trim_end-tally (suc n)) ∙ marks (suc n)

json_host-RoundTrips : RoundTrips json_host captured_record
unfolding reads_json equal
json_host-RoundTrips bytes marshalled = let e : codes "{}" ≡ bytes = cc in ap reads_json (sym e)

event_0 : ReadsEvent json_host 0
unfolding equal decimal test_event
event_0 = record { value = 0; read = refl; written = refl }

event_1 : ReadsEvent json_host 1
unfolding equal decimal test_event
event_1 = record { value = 10; read = refl; written = refl }

event_2 : ReadsEvent json_host 2
unfolding equal decimal test_event
event_2 = record { value = 20; read = refl; written = refl }

abbrev test_upstream : Upstream
test_upstream = record streaming { peek = λ _. codes "chunked" }

abbrev test_network : Network
test_network = record {
  send = λ _ _. none;
  failure = [];
  released_status = λ _. pos 200;
  connect = λ _ _ _ _. streams test_upstream (encode tally (flushed (handler_of net_http)));
}

test_server_captured_example :
    ((dispatch json_host scan_marks same_time 3 disk proxy test_network
        (codes "1")
        (codes "then")
        wanting).sent
      ≡ some (stuttered test_payloads))
    × ((r : MockResponse ℕ) × (parse_mock_record json_host (codes "{}") (codes "default") ≡ ok r)
        × (r.body ≡ stream_of compact_payloads))
unfolding equal dispatch has_prefix data_event read_chunks to_lower_ascii_simple insert request_path
    record_content_type lookup header_maps cut_at handle request_data contains_text
    handle_sse_streaming recorded_stream relay_body record_sse_pair save relay_chunks relay_line
    data_lines_from timed_event split json_or_text test_event decimal reads_json writes_json
    flushed_from handler_of sse_handler test_events_from has_byte
test_server_captured_example =
    test_server_captured json_host scan_marks tally same_time 3 disk proxy test_network (codes "1")
      (codes "then") wanting test_upstream net_http (codes "default")
      (codes "mocks/default/text_event-stream_20251122_5eb1.json") (codes "{}") (codes "/users")
      refl refl refl refl json_host-IsHex json_host-trims event_0 event_1 event_2 refl
      json_host-RoundTrips refl refl
