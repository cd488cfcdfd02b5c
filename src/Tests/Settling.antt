-- ===== src/Tests/Settling.antt =====
-- A text that is no JSON, recorded, replayed as a JSON string and recorded again.
use auto_mock_tools.Prelude.{
  ℕ, ◌≡◌, refl, sym, ap, [], ◌∷◌, ◌++◌, Option, none, some, if◌then◌else◌, Bytes, codes, equal,
  cut_at, has_byte, has_prefix, lookup, insert, ok, ok_injective, All,
}
use auto_mock_tools.Ascii.{trim_space_ascii, is_space, to_lower_ascii_simple}
use auto_mock_tools.Json.{Json, str, num, arr, obj, items, fields}
use auto_mock_tools.Host.{Host, pos}
use auto_mock_tools.Storage.Types.{MockResponse}
use auto_mock_tools.Loader.{build_response, parse_mock_record}
use auto_mock_tools.Loader.Fields.{request_path, header_maps, record_content_type}
use auto_mock_tools.Loader.Body.{body_bytes, decoded_body, data_event, is_done, marshal_event}
use auto_mock_tools.Recorder.{
  json_or_text, request_fields, response_fields, record_json, record_sse_pair, save, split,
}
use auto_mock_tools.Recorder.Replay.{RoundTrips}
use auto_mock_tools.Proxy.Forward.{request_data}
use auto_mock_tools.Proxy.Scan.{scan_lines, scan_pieces}
use auto_mock_tools.Proxy.Relay.{relay_lines, data_lines_from, timed_event}
use auto_mock_tools.Proxy.Relay.Replay.{IsData, stream_of}
use auto_mock_tools.Proxy.Handle.{
  Network, streams, dispatch, handle, handle_sse_streaming, recorded_stream, relay_body,
  contains_text,
}
use auto_mock_tools.Proxy.Handle.Replay.{Fits}
use auto_mock_tools.Proxy.Handle.Settled.{IsKept, KeepsMarker, Writes, settled_of, replay_settles}
use auto_mock_tools.Tests.World.{host, codec}
use auto_mock_tools.Tests.Recording.{disk, request, stream_headers}
use auto_mock_tools.Tests.Replaying.{same_time}
use auto_mock_tools.Tests.Streaming.{no_size, proxy, streaming, network, wanting}

-- Texts are written in quotes, and one quoted text is read.
abbrev quoted : Json ℕ → Option Bytes
quoted (str s) = some (codes "\"" ++ s ++ codes "\"")
quoted _ = none

abbrev hi_record : Json ℕ
hi_record = record_json host (request_fields host request) (
    response_fields host disk request (pos 200) stream_headers
      (arr (
        items
          (obj (fields ((codes "data", str (codes "hi")) ∷ (codes "timestamp", num 2) ∷ [])) ∷ [])))
      3)

abbrev read_quoted : Bytes → Option (Json ℕ)
read_quoted s =
    if equal s (codes "\"hi\"")
    then some (str (codes "hi"))
    else if equal s (codes "{}")
    then some hi_record
    else none

abbrev quote_host : Host ℕ
quote_host = record host {
  codec = record codec {
    marshal = quoted;
    marshal_indent = λ _. some (codes "{}");
    unmarshal = read_quoted;
  };
}

-- the upstream servers of the two proxies
abbrev raw_network : Network
raw_network = record network { connect = λ _ _ _ _. streams streaming (codes "data: hi\n\n") }

abbrev quoted_network : Network
quoted_network = record network {
  connect = λ _ _ _ _. streams streaming (codes "data: \"hi\"\n\n");
}

quote_host-RoundTrips : RoundTrips quote_host hi_record
unfolding equal
quote_host-RoundTrips bytes marshalled = let e : codes "{}" ≡ bytes = cc in ap read_quoted (sym e)

hi-IsKept : All (IsKept quote_host) (codes "hi" ∷ [])
unfolding equal has_byte json_or_text trim_space_ascii is_space
hi-IsKept = (
  record {
    bytes = codes "\"hi\"";
    marshalled = refl;
    read = refl;
    fits = record { one_line = refl; no_cr = refl; short = refl };
    trimmed = refl;
  },
  tt,
)

hi-IsData : All (IsData quote_host) (codes "hi" ∷ [])
unfolding has_byte trim_space_ascii is_space
hi-IsData = (record { one_line = refl; trimmed = refl }, tt)

hi-Fits : All Fits (codes "hi" ∷ [])
unfolding has_byte
hi-Fits = (record { one_line = refl; no_cr = refl; short = refl }, tt)

quote_host-KeepsMarker : KeepsMarker quote_host
unfolding equal trim_space_ascii is_space
quote_host-KeepsMarker = record { no_json = refl; trimmed = refl }

abbrev file_name : Bytes
file_name = codes "mocks/default/text_event-stream_20251122_5eb1.json"

raw-Writes :
    Writes quote_host no_size same_time 3 disk proxy raw_network
      (codes "1")
      (codes "then")
      wanting
      streaming
      (codes "hi" ∷ [])
      file_name
      (codes "{}")
      (codes "/users")
unfolding dispatch handle request_data contains_text handle_sse_streaming recorded_stream relay_body
    scan_lines scan_pieces record_sse_pair save request_path header_maps record_content_type
    relay_lines data_lines_from timed_event split json_or_text data_event has_prefix lookup insert
    equal cut_at trim_space_ascii is_space to_lower_ascii_simple has_byte
raw-Writes = record {
  get = refl;
  wants = refl;
  plain = refl;
  saved = refl;
  back = quote_host-RoundTrips;
  parsed = refl;
  stream = refl;
}

quoted-Writes :
    Writes quote_host no_size same_time 3 disk proxy quoted_network
      (codes "1")
      (codes "then")
      wanting
      streaming
      (settled_of quote_host (codes "hi" ∷ []))
      file_name
      (codes "{}")
      (codes "/users")
unfolding dispatch handle request_data contains_text handle_sse_streaming recorded_stream relay_body
    scan_lines scan_pieces record_sse_pair save request_path header_maps record_content_type
    relay_lines data_lines_from timed_event split json_or_text data_event has_prefix lookup insert
    equal cut_at trim_space_ascii is_space to_lower_ascii_simple has_byte is_done
quoted-Writes = record {
  get = refl;
  wants = refl;
  plain = refl;
  saved = refl;
  back = quote_host-RoundTrips;
  parsed = refl;
  stream = refl;
}

quoted-served :
    (r : MockResponse ℕ)
    → parse_mock_record quote_host (codes "{}") (codes "default") ≡ ok r
    → streams streaming (codes "data: \"hi\"\n\n") ≡ streams streaming r.body
unfolding parse_mock_record build_response body_bytes decoded_body request_path header_maps
    record_content_type data_event lookup insert equal cut_at trim_space_ascii to_lower_ascii_simple
    is_done marshal_event
quoted-served r loaded = ap (λ (s : MockResponse ℕ). streams streaming s.body) (ok_injective loaded)

replay_settles_example :
    (r r' : MockResponse ℕ) × (parse_mock_record quote_host (codes "{}") (codes "default") ≡ ok r)
    × (r.body ≡ stream_of (settled_of quote_host (codes "hi" ∷ [])))
    × ((dispatch quote_host no_size same_time 3 disk proxy quoted_network
          (codes "1")
          (codes "then")
          wanting).sent
        ≡ some r.body)
    × (parse_mock_record quote_host (codes "{}") (codes "default") ≡ ok r')
    × (r'.body ≡ r.body)
unfolding data_event
replay_settles_example =
    replay_settles quote_host no_size same_time same_time 3 3 disk disk proxy proxy raw_network
      quoted_network (codes "1") (codes "1") (codes "then") (codes "then") wanting wanting streaming
      streaming (codes "hi" ∷ []) (codes "default") file_name file_name (codes "{}") (codes "{}")
      (codes "/users") (codes "/users") quote_host-KeepsMarker hi-IsKept hi-IsData hi-Fits refl
      raw-Writes quoted-served quoted-Writes
