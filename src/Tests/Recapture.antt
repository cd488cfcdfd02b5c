-- ===== src/Tests/Recapture.antt =====
-- A stream that is recorded and served again, at a concrete input.
use auto_mock_tools.Prelude.{
  ℕ, ◌≡◌, refl, sym, ◌∙◌, true, false, inl, inr, [], ◌∷◌, none, some, if◌then◌else◌, Bytes, codes,
  equal, cut_at, has_byte, has_prefix, lookup, insert, In, All,
}
use auto_mock_tools.Ascii.{trim_space_ascii, is_space, to_lower_ascii_simple, equal_fold_bytes}
use auto_mock_tools.Host.{FileSystem}
use auto_mock_tools.Storage.Types.{MockResponse}
use auto_mock_tools.Storage.Find.{normalize}
use auto_mock_tools.Storage.Find.Catalog.{Readable}
use auto_mock_tools.Storage.Load.{is_mock_file}
use auto_mock_tools.Storage.Load.Contents.{scan_base}
use auto_mock_tools.Storage.Load.Holds.{Holds}
use auto_mock_tools.Loader.{load_response_from_file, parse_mock_record, build_response}
use auto_mock_tools.Loader.Fields.{
  request_path, header_maps, record_content_type, record_method, record_mock_id, record_status_code,
  record_delay, header_keys_lower,
}
use auto_mock_tools.Loader.Body.{data_event, decoded_body, body_bytes, recorded_events}
use auto_mock_tools.Handlers.{first_accept}
use auto_mock_tools.Handlers.Calls.{Request, set_body, stream_body}
use auto_mock_tools.Handlers.Stream.{written}
use auto_mock_tools.Handlers.Pool.{StreamWriter, Stream, System, Reach}
use auto_mock_tools.Server.Streamed.{recorded_stream_streamed}
use auto_mock_tools.Recorder.{record_sse_pair, save, split, json_or_text}
use auto_mock_tools.Proxy.Forward.{request_data}
use auto_mock_tools.Proxy.Scan.{scan_lines, scan_pieces}
use auto_mock_tools.Proxy.Relay.{relay_lines, data_lines_from, timed_event}
use auto_mock_tools.Proxy.Handle.{
  dispatch, handle, handle_sse_streaming, recorded_stream, relay_body, contains_text,
}
use auto_mock_tools.Server.{Flags, Server, start, serve}
use auto_mock_tools.Server.Recorded.{Captured, Asks, recorded_stream_served}
use auto_mock_tools.Tests.World.{externals}
use auto_mock_tools.Tests.Stores.{request_for, users-NoPipe}
use auto_mock_tools.Tests.Recording.{disk}
use auto_mock_tools.Tests.Replaying.{kept_host, kept_host-RoundTrips, hello-IsPayload, same_time}
use auto_mock_tools.Tests.Streaming.{no_size, proxy, network, streaming, wanting, hello-Fits}
use auto_mock_tools.Tests.Serving.{value_of, no_server}

abbrev file_name : Bytes
file_name = codes "text_event-stream_20251122_5eb1.json"

-- The mock directory holds the file that the proxy writes.
abbrev files : FileSystem
files = record {
  missing = λ _. false;
  read_dir = λ dir.
      if equal dir (codes "mocks")
      then some (record { name = codes "default"; is_dir = true } ∷ [])
      else if equal dir (codes "mocks/default")
      then some (record { name = file_name; is_dir = false } ∷ [])
      else none;
  read_file = λ _. some (codes "{}");
}

abbrev flags : Flags ℕ
flags = record {
  mock_dir = codes "mocks";
  mock_config = [];
  log_dir = [];
  replay_timing = false;
  jitter = 0;
}

abbrev server : Server ℕ Bytes
server = value_of no_server (start kept_host files externals disk flags)

abbrev asking : Request
asking = request_for (codes "/users") (codes "GET") (codes "text/event-stream")

mocks-Holds : Holds files (codes "mocks") (codes "default") (codes "{}")
unfolding equal is_mock_file
mocks-Holds = record {
  entries = record { name = codes "default"; is_dir = true } ∷ [];
  listing = record { name = file_name; is_dir = false } ∷ [];
  dir = record { name = codes "default"; is_dir = true };
  file = record { name = file_name; is_dir = false };
  present = refl;
  base_read = refl;
  dir_in = inl refl;
  is_dir = refl;
  named = refl;
  dir_read = refl;
  file_in = inl refl;
  mock = refl;
  file_read = refl;
}

mocks-Readable : All Readable (scan_base kept_host files (codes "mocks"))
unfolding is_mock_file load_response_from_file parse_mock_record build_response equal lookup insert
    cut_at trim_space_ascii to_lower_ascii_simple request_path header_maps record_content_type
    record_method record_mock_id record_status_code record_delay header_keys_lower decoded_body
    body_bytes recorded_events has_byte
mocks-Readable = (record { of_path = refl; of_mock_id = refl }, tt)

one_mock :
    (x y : MockResponse ℕ)
    → In x (scan_base kept_host files (codes "mocks"))
    → In y (scan_base kept_host files (codes "mocks"))
    → x ≡ y
unfolding is_mock_file load_response_from_file parse_mock_record build_response equal lookup insert
    cut_at trim_space_ascii to_lower_ascii_simple request_path header_maps record_content_type
    record_method record_mock_id record_status_code record_delay header_keys_lower decoded_body
    body_bytes recorded_events
one_mock x y (inl e) (inl f) = e ∙ sym f
one_mock x y (inr i) j = elim i [ ]
one_mock x y (inl e) (inr j) = elim j [ ]

hello-Captured :
    Captured kept_host no_size same_time 3 disk proxy network
      (codes "1")
      (codes "then")
      wanting
      streaming
      (codes "hello" ∷ [])
      (codes "mocks/default/text_event-stream_20251122_5eb1.json")
      (codes "{}")
      (codes "/users")
unfolding dispatch handle request_data contains_text handle_sse_streaming recorded_stream relay_body
    scan_lines scan_pieces record_sse_pair save request_path header_maps record_content_type
    relay_lines data_lines_from timed_event split json_or_text data_event has_prefix lookup insert
    equal cut_at trim_space_ascii is_space to_lower_ascii_simple has_byte
hello-Captured = record {
  get = refl;
  wants = refl;
  connected = refl;
  plain = refl;
  payloads = hello-IsPayload;
  fits = hello-Fits;
  saved = refl;
  back = kept_host-RoundTrips;
  parsed = refl;
  stream = refl;
}

asking-Asks :
    Asks kept_host no_size same_time 3 disk proxy network
      (codes "1")
      (codes "then")
      wanting
      streaming
      (codes "hello" ∷ [])
      (codes "default")
      (codes "/users")
      asking
unfolding request_data normalize first_accept record_mock_id record_method equal_fold_bytes equal
    lookup insert cut_at trim_space_ascii
asking-Asks = record {
  path_same = refl;
  mock_id_same = refl;
  type_same = refl;
  method_same = refl;
  no_pipe = users-NoPipe;
  no_endpoint = refl;
  one_type = refl;
}

recorded_stream_served_example :
    In (set_body (codes "data: hello\n\n")) (serve kept_host externals server 0 asking)
unfolding start equal data_event
recorded_stream_served_example =
    recorded_stream_served kept_host no_size same_time 3 disk proxy network (codes "1")
      (codes "then") wanting streaming (codes "hello" ∷ []) files externals flags server refl
      (codes "default") (codes "mocks/default/text_event-stream_20251122_5eb1.json") (codes "{}")
      (codes "/users") 0 asking hello-Captured mocks-Holds refl refl mocks-Readable asking-Asks
      (λ x y i j _ _. one_mock x y i j)

abbrev timed_flags : Flags ℕ
timed_flags = record flags { replay_timing = true; jitter = 1 }

abbrev timed_server : Server ℕ Bytes
timed_server = value_of no_server (start kept_host files externals disk timed_flags)

recorded_stream_streamed_example :
    (w : StreamWriter ℕ) × In
      (stream_body w.events w.jitter_scale)
      (serve kept_host externals timed_server 0 asking)
    × ((t : System ℕ) (s : Stream ℕ)
        → Reach kept_host t
        → In s t.finished
        → s.wanted ≡ w
        → written s.steps ≡ codes "data: hello\n\n")
unfolding start equal data_event
recorded_stream_streamed_example =
    recorded_stream_streamed kept_host no_size same_time 3 disk proxy network (codes "1")
      (codes "then") wanting streaming (codes "hello") [] files externals timed_flags timed_server
      refl (codes "default") (codes "mocks/default/text_event-stream_20251122_5eb1.json")
      (codes "{}") (codes "/users") 0 asking hello-Captured mocks-Holds refl refl mocks-Readable
      asking-Asks (λ x y i j _ _. one_mock x y i j)
