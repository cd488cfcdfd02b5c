-- ===== src/Proxy/Handle/Replay.antt =====
-- A stream through the proxy, from the upstream server's bytes to the mock server's answer.
use mathlib.Core.List.{append_assoc}
use auto_mock_tools.Prelude.{
  ◌≡◌, refl, sym, ap, ◌∙◌, true, false, List, [], ◌∷◌, ◌++◌, Option, some, some_injective, Bytes,
  codes, Assoc, equal, length, ltb, has_byte, ok, All, ℕ,
}
use auto_mock_tools.Json.{Json}
use auto_mock_tools.Host.{Host, ℤ}
use auto_mock_tools.Storage.Types.{MockResponse}
use auto_mock_tools.Loader.{parse_mock_record}
use auto_mock_tools.Loader.Fields.{request_path, header_maps, record_content_type}
use auto_mock_tools.Loader.Body.{event_stream, data_event}
use auto_mock_tools.Recorder.{
  RequestData, Upstream, Disk, request_fields, record_json, record_sse_pair,
}
use auto_mock_tools.Recorder.Replay.{RoundTrips}
use auto_mock_tools.Proxy.Forward.{Incoming, request_data, prepare_request}
use auto_mock_tools.Proxy.Relay.{relay_start, relay_lines}
use auto_mock_tools.Proxy.Relay.Replay.{
  data_line, lines_of, stream_of, replay_of, replay_of-stream_of, IsData, IsPayload,
  payloads-IsData, data_line-one_line, data_line-no_cr,
}
use auto_mock_tools.Proxy.Scan.{longest_line, scan_lines}
use auto_mock_tools.Proxy.Scan.Lines.{joined, fitting, IsLine, scan_lines-joined}
use auto_mock_tools.Proxy.Replay.{relayed_events, relayed_response, relay_record_load}
use auto_mock_tools.Proxy.Handle.{
  ProxyHandler, Network, Connection, streams, Handled, wants_stream, is_https, is_chunked,
  target_host, saved_headers_from, relay_body, recorded_stream, handle_sse_streaming, dispatch,
}
use auto_mock_tools.Proxy.Handle.Answers.{handle_lem}

-- A payload of one line with no carriage return, whose line fits the scanner.
pub record Fits (p : Bytes) : Type 0 where
  pub one_line : has_byte b'\n' p ≡ false
  pub no_cr : has_byte b'\r' p ≡ false
  pub short : ltb longest_line (length (data_line p)) ≡ false

stream_of-joined : (ps : List Bytes) → stream_of ps ≡ joined (lines_of ps)
unfolding data_event
stream_of-joined [] = refl
stream_of-joined (p ∷ ps) =
    append_assoc (data_line p) (codes "\n\n") (stream_of ps)
    ∙ ap (λ rest. data_line p ++ b'\n' ∷ b'\n' ∷ rest) (stream_of-joined ps)

lines_of-IsLine : (ps : List Bytes) → All Fits ps → All IsLine (lines_of ps)
unfolding has_byte
lines_of-IsLine [] h = tt
lines_of-IsLine (p ∷ ps) h = (
  record { one_line = data_line-one_line p h.0.one_line; no_cr = data_line-no_cr p h.0.no_cr },
  (record { one_line = refl; no_cr = refl }, lines_of-IsLine ps h.1),
)

fitting-lines_of : (ps : List Bytes) → All Fits ps → fitting (lines_of ps) ≡ lines_of ps
fitting-lines_of [] h = refl
fitting-lines_of (p ∷ ps) h =
    rw h.0.short (ap (λ ls. data_line p ∷ [] ∷ ls) (fitting-lines_of ps h.1))

scan_lines-stream_of : (ps : List Bytes) → All Fits ps → scan_lines (stream_of ps) ≡ lines_of ps
scan_lines-stream_of ps h =
    ap scan_lines (stream_of-joined ps)
    ∙ scan_lines-joined (lines_of ps) (lines_of-IsLine ps h)
    ∙ fitting-lines_of ps h

module _ {F : Type 0} (host : Host F) (scan_hex : Bytes → Option ℤ) (clock : ℕ → F) (elapsed : F)
    (disk : Disk) (proxy : ProxyHandler) (network : Network) where
  relay_body-stream_of :
      (response : Upstream) (ps : List Bytes)
      → is_chunked response ≡ false
      → All Fits ps
      → relay_body host scan_hex clock elapsed disk proxy network response (stream_of ps)
        ≡ relay_lines host clock relay_start (lines_of ps)
  unfolding relay_body
  relay_body-stream_of response ps plain h =
      rw plain (ap (relay_lines host clock relay_start) (scan_lines-stream_of ps h))

  recorded_stream-plain :
      (request : RequestData F) (response : Upstream) (body : Bytes)
      → is_chunked response ≡ false
      → recorded_stream host scan_hex clock elapsed disk proxy network request response body
        ≡ some (
            record_sse_pair host disk proxy.base_dir request
              (network.released_status response)
              (relay_body host scan_hex clock elapsed disk proxy network response body).events
              elapsed
              (saved_headers_from host [] response.headers))
  unfolding recorded_stream
  recorded_stream-plain request response body plain = rw plain refl

  module _ (id time : Bytes) (incoming : Incoming) (response : Upstream) (ps : List Bytes) where
    -- the request to the upstream server, as it is written to the connection
    abbrev pub connection : Connection
    connection =
        network.connect proxy.certificate (is_https proxy.target_url) (target_host proxy.target_url)
          (prepare_request host proxy.target_url incoming)

    -- the request of the record, and its response
    abbrev pub stream_request : RequestData F
    stream_request = request_data host id time incoming

    abbrev pub stream_response : Assoc (Json F)
    stream_response =
        relayed_response host clock disk proxy.base_dir stream_request
          (network.released_status response) elapsed (saved_headers_from host [] response.headers)
          ps

    abbrev pub dispatched : Handled F
    dispatched = dispatch host scan_hex clock elapsed disk proxy network id time incoming

    pub dispatch_stream :
        (body : Bytes)
        → equal incoming.method (codes "CONNECT") ≡ false
        → wants_stream incoming ≡ true
        → connection ≡ streams response body
        → dispatched
          ≡ handle_sse_streaming host scan_hex clock elapsed disk proxy network stream_request
              (streams response body)
    unfolding dispatch
    dispatch_stream body get wants connected = rw (get, handle_lem, wants, connected) refl

    pub stream_sent :
        (body : Bytes)
        → (handle_sse_streaming host scan_hex clock elapsed disk proxy network stream_request
            (streams response body)).sent
          ≡ some (relay_body host scan_hex clock elapsed disk proxy network response body).sent
    unfolding handle_sse_streaming
    stream_sent body = refl

    pub stream_recorded :
        (body : Bytes)
        → (handle_sse_streaming host scan_hex clock elapsed disk proxy network stream_request
            (streams response body)).recorded
          ≡ recorded_stream host scan_hex clock elapsed disk proxy network stream_request response
              body
    unfolding handle_sse_streaming
    stream_recorded body = refl

    pub stream_written :
        (file bytes : Bytes)
        → equal incoming.method (codes "CONNECT") ≡ false
        → wants_stream incoming ≡ true
        → connection ≡ streams response (stream_of ps)
        → is_chunked response ≡ false
        → All Fits ps
        → dispatched.recorded ≡ some (ok (file, bytes))
        → record_sse_pair host disk proxy.base_dir stream_request
            (network.released_status response)
            (relayed_events host clock disk proxy.base_dir stream_request
              (network.released_status response)
              elapsed
              (saved_headers_from host [] response.headers)
              ps)
            elapsed
            (saved_headers_from host [] response.headers)
          ≡ ok (file, bytes)
    stream_written file bytes get wants connected plain fits saved = some_injective (
        sym (
          ap (λ (h : Handled F). h.recorded) (dispatch_stream (stream_of ps) get wants connected)
          ∙ stream_recorded (stream_of ps)
          ∙ recorded_stream-plain stream_request response (stream_of ps) plain
          ∙ ap
              (λ s. some (
                record_sse_pair host disk proxy.base_dir stream_request
                  (network.released_status response) s.events elapsed
                  (saved_headers_from host [] response.headers)))
              (relay_body-stream_of response ps plain fits))
        ∙ saved)

    -- A request for an event stream, to an upstream server that answers with a stream of data
    -- lines, each followed by an empty line, and not chunked, is answered with these bytes; and
    -- the file that is recorded of it loads as a mock whose body is the stream of the same
    -- payloads, each in the form in which encoding/json writes its value, a text that is no JSON
    -- as a JSON string, and the end marker as itself, an event whose value cannot be marshalled
    -- left out, if each payload stands on one line of at most 65535 bytes with no carriage return
    -- and is left alone by trimming, the file is written, the request's URL parses, the recorded
    -- headers name an event stream, and the JSON text is read back as it was written.
    pub dispatch_stream_normalizes :
        (fallback file bytes path : Bytes)
        → equal incoming.method (codes "CONNECT") ≡ false
        → wants_stream incoming ≡ true
        → connection ≡ streams response (stream_of ps)
        → is_chunked response ≡ false
        → All (IsData host) ps
        → All Fits ps
        → dispatched.recorded ≡ some (ok (file, bytes))
        → RoundTrips host (record_json host (request_fields host stream_request) stream_response)
        → request_path host incoming.url ≡ ok path
        → record_content_type host (header_maps host stream_response).lower ≡ event_stream
        → (dispatched.sent ≡ some (stream_of ps))
          × ((r : MockResponse F) × (parse_mock_record host bytes fallback ≡ ok r)
              × (r.body ≡ replay_of host ps))
    unfolding request_data
    dispatch_stream_normalizes fallback file bytes path get wants connected plain payloads fits
          saved back parsed stream =
        let answered = dispatch_stream (stream_of ps) get wants connected in
        let relayed = relay_body-stream_of response ps plain fits in
        let written = stream_written file bytes get wants connected plain fits saved in
        let (r, loaded, body, sent) =
          relay_record_load host clock disk proxy.base_dir stream_request
            (network.released_status response) elapsed (saved_headers_from host [] response.headers)
            ps fallback file bytes path payloads written back parsed stream in
        (
          ap (λ (h : Handled F). h.sent) answered
              ∙ stream_sent (stream_of ps)
              ∙ ap (λ s. some s.sent) relayed
              ∙ ap some sent,
          (r, loaded, body),
        )

    -- A request for an event stream, to an upstream server that answers with a stream of data
    -- lines, each followed by an empty line, and not chunked, is answered with these bytes; and
    -- the file that is recorded of it loads as a mock whose body is the same bytes, if each
    -- payload stands on one line of at most 65535 bytes with no carriage return, is left alone by
    -- trimming, and is the end marker or the text that its JSON value is marshalled to, the file
    -- is written, the request's URL parses, the recorded headers name an event stream, and the
    -- JSON text is read back as it was written.
    pub dispatch_stream_replays :
        (fallback file bytes path : Bytes)
        → equal incoming.method (codes "CONNECT") ≡ false
        → wants_stream incoming ≡ true
        → connection ≡ streams response (stream_of ps)
        → is_chunked response ≡ false
        → All (IsPayload host) ps
        → All Fits ps
        → dispatched.recorded ≡ some (ok (file, bytes))
        → RoundTrips host (record_json host (request_fields host stream_request) stream_response)
        → request_path host incoming.url ≡ ok path
        → record_content_type host (header_maps host stream_response).lower ≡ event_stream
        → (dispatched.sent ≡ some (stream_of ps))
          × ((r : MockResponse F) × (parse_mock_record host bytes fallback ≡ ok r)
              × (r.body ≡ stream_of ps))
    dispatch_stream_replays fallback file bytes path get wants connected plain payloads fits saved
          back parsed stream =
        let (sent, (r, loaded, body)) =
          dispatch_stream_normalizes fallback file bytes path get wants connected plain
            (payloads-IsData host ps payloads) fits saved back parsed stream in
        (sent, (r, loaded, body ∙ replay_of-stream_of host ps payloads))
