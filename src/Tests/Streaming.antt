-- ===== src/Tests/Streaming.antt =====
-- The proxy from request to record, at a concrete input.
use auto_mock_tools.Prelude.{
  ℕ, ◌≡◌, refl, if◌then◌else◌, [], ◌∷◌, Option, none, some, Bytes, codes, equal, cut_at, has_byte,
  has_prefix, lookup, insert, ok, All,
}
use auto_mock_tools.Ascii.{trim_space_ascii, is_space, to_lower_ascii_simple}
use auto_mock_tools.Host.{Host, ℤ, pos}
use auto_mock_tools.Storage.Types.{MockResponse}
use auto_mock_tools.Loader.{parse_mock_record}
use auto_mock_tools.Loader.Fields.{request_path, header_maps, record_content_type}
use auto_mock_tools.Loader.Body.{data_event, is_done, marshal_event}
use auto_mock_tools.Recorder.{Upstream, record_sse_pair, save, split, json_or_text}
use auto_mock_tools.Proxy.Forward.{Incoming, request_data}
use auto_mock_tools.Proxy.Scan.{scan_lines, scan_pieces}
use auto_mock_tools.Proxy.Relay.{
  relay_lines, relay_chunks, relay_line, data_lines_from, timed_event,
}
use auto_mock_tools.Proxy.Relay.Replay.{payloads-IsData}
use auto_mock_tools.Proxy.Handle.{
  ProxyHandler, Network, streams, not_connected, dispatch, handle, handle_sse_streaming,
  recorded_stream, relay_body, contains_text,
}
use auto_mock_tools.Proxy.Handle.Answers.{Withholds, withheld, dispatch-Withholds}
use auto_mock_tools.Proxy.Handle.Replay.{Fits, dispatch_stream_normalizes, dispatch_stream_replays}
use auto_mock_tools.Proxy.Chunks.{read_chunks}
use auto_mock_tools.Proxy.Chunks.Encoded.{encode}
use auto_mock_tools.Proxy.Relay.Stuttered.{IsChunked}
use auto_mock_tools.Proxy.Handle.Chunked.{dispatch_chunks_normalizes}
use auto_mock_tools.Tests.Chunking.{tally, scan_tally, drop_ends, tally-one_line, tally_scanned}
use auto_mock_tools.Tests.World.{host}
use auto_mock_tools.Tests.Proxying.{answered, incoming}
use auto_mock_tools.Tests.Recording.{disk, stream_headers}
use auto_mock_tools.Tests.Replaying.{kept_host, kept_host-RoundTrips, hello-IsPayload, same_time}

abbrev pub no_size : Bytes → Option ℤ
no_size _ = none

abbrev pub proxy : ProxyHandler
proxy = record {
  base_dir = codes "mocks";
  target_url = codes "http://upstream";
  certificate = none;
}

abbrev pub streaming : Upstream
streaming = record { status_code = pos 200; headers = stream_headers; peek = λ _. []; body = [] }

abbrev pub network : Network
network = record {
  send = λ _ _. some answered;
  failure = [];
  released_status = λ _. pos 200;
  connect = λ _ _ address _.
      if equal address (codes "upstream:80")
      then streams streaming (codes "data: hello\n\n")
      else not_connected;
}

dispatch-Withholds_example :
    All
      (Withholds host (withheld host no_size same_time 3 disk proxy network incoming))
      (dispatch host no_size same_time 3 disk proxy network
        (codes "1")
        (codes "then")
        incoming).calls
dispatch-Withholds_example =
    dispatch-Withholds host no_size same_time 3 disk proxy network (codes "1") (codes "then")
      incoming

abbrev pub wanting : Incoming
wanting = record {
  method = codes "GET";
  path = codes "/users";
  query = [];
  url = codes "http://localhost/users";
  headers = [];
  body = [];
  mock_id = [];
  accept = codes "text/event-stream";
}

pub hello-Fits : All Fits (codes "hello" ∷ [])
unfolding has_byte
hello-Fits = (record { one_line = refl; no_cr = refl; short = refl }, tt)

dispatch_stream_replays_example :
    ((dispatch kept_host no_size same_time 3 disk proxy network
        (codes "1")
        (codes "then")
        wanting).sent
      ≡ some (codes "data: hello\n\n"))
    × ((r : MockResponse ℕ) × (parse_mock_record kept_host (codes "{}") (codes "default") ≡ ok r)
        × (r.body ≡ codes "data: hello\n\n"))
unfolding dispatch handle request_data contains_text handle_sse_streaming recorded_stream relay_body
    scan_lines scan_pieces record_sse_pair save request_path header_maps record_content_type
    relay_lines data_lines_from timed_event split json_or_text data_event has_prefix lookup insert
    equal cut_at trim_space_ascii is_space to_lower_ascii_simple has_byte
dispatch_stream_replays_example =
    dispatch_stream_replays kept_host no_size same_time 3 disk proxy network (codes "1")
      (codes "then") wanting streaming (codes "hello" ∷ []) (codes "default")
      (codes "mocks/default/text_event-stream_20251122_5eb1.json") (codes "{}") (codes "/users")
      refl refl refl refl hello-IsPayload hello-Fits refl kept_host-RoundTrips refl refl

dispatch_stream_normalizes_example :
    ((dispatch kept_host no_size same_time 3 disk proxy network
        (codes "1")
        (codes "then")
        wanting).sent
      ≡ some (codes "data: hello\n\n"))
    × ((r : MockResponse ℕ) × (parse_mock_record kept_host (codes "{}") (codes "default") ≡ ok r)
        × (r.body ≡ codes "data: hello\n\n"))
unfolding dispatch handle request_data contains_text handle_sse_streaming recorded_stream relay_body
    scan_lines scan_pieces record_sse_pair save request_path header_maps record_content_type
    relay_lines data_lines_from timed_event split json_or_text data_event has_prefix lookup insert
    equal cut_at trim_space_ascii is_space to_lower_ascii_simple has_byte is_done marshal_event
dispatch_stream_normalizes_example =
    dispatch_stream_normalizes kept_host no_size same_time 3 disk proxy network (codes "1")
      (codes "then") wanting streaming (codes "hello" ∷ []) (codes "default")
      (codes "mocks/default/text_event-stream_20251122_5eb1.json") (codes "{}") (codes "/users")
      refl refl refl refl (payloads-IsData kept_host (codes "hello" ∷ []) hello-IsPayload)
      hello-Fits refl kept_host-RoundTrips refl refl

-- the world in which trimming takes all line ends, and sizes are tallies
abbrev chunk_host : Host ℕ
chunk_host = record kept_host { codec = record kept_host.codec { trim_space = drop_ends } }

abbrev chunking : Upstream
chunking = record streaming { peek = λ _. codes "chunked" }

abbrev chunk_network : Network
chunk_network = record network {
  connect = λ _ _ _ _. streams chunking (encode tally (codes "data: hello\n\n" ∷ []));
}

hello-IsChunked : All (IsChunked chunk_host same_time) (codes "hello" ∷ [])
unfolding has_byte
hello-IsChunked = (
  record {
    data_text = record { one_line = refl; trimmed = refl };
    no_cr = refl;
    trimmed_behind = refl;
  },
  tt,
)

dispatch_chunks_normalizes_example :
    ((dispatch chunk_host scan_tally same_time 3 disk proxy chunk_network
        (codes "1")
        (codes "then")
        wanting).sent
      ≡ some (codes "data: hello\n\n\n"))
    × ((r : MockResponse ℕ) × (parse_mock_record chunk_host (codes "{}") (codes "default") ≡ ok r)
        × (r.body ≡ codes "data: hello\n\n"))
unfolding equal has_prefix data_event read_chunks to_lower_ascii_simple insert request_path
    record_content_type lookup header_maps cut_at is_done marshal_event dispatch handle request_data
    contains_text handle_sse_streaming recorded_stream relay_body record_sse_pair save relay_chunks
    relay_line data_lines_from timed_event split json_or_text
dispatch_chunks_normalizes_example =
    dispatch_chunks_normalizes chunk_host scan_tally tally same_time 3 disk proxy chunk_network
      (codes "1") (codes "then") wanting chunking (codes "hello" ∷ []) (codes "default")
      (codes "mocks/default/text_event-stream_20251122_5eb1.json") (codes "{}") (codes "/users")
      refl refl refl refl (record { one_line = tally-one_line; scanned = tally_scanned })
      hello-IsChunked refl kept_host-RoundTrips refl refl
