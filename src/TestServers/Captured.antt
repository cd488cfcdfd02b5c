-- ===== src/TestServers/Captured.antt =====
-- The streams of the test servers through the proxy, and what they are replayed as.
use mathlib.Core.List.{append_assoc}
use Prim.Native.Nat.{◌*◌}
use auto_mock_tools.Prelude.{
  ℕ, ◌≡◌, refl, sym, ap, ◌∙◌, true, false, List, [], ◌∷◌, ◌++◌, Option, some, Bytes, codes,
  has_byte, Assoc, equal, ok, All,
}
use auto_mock_tools.Json.{Json, str, num, obj, fields}
use auto_mock_tools.Host.{Host, ℤ}
use auto_mock_tools.Storage.Types.{MockResponse}
use auto_mock_tools.Loader.{parse_mock_record}
use auto_mock_tools.Loader.Fields.{request_path, header_maps, record_content_type}
use auto_mock_tools.Loader.Body.{event_stream, data_event, is_done, marshal_event}
use auto_mock_tools.Recorder.{
  RequestData, Upstream, Disk, request_fields, record_json, json_or_text,
}
use auto_mock_tools.Recorder.Replay.{RoundTrips}
use auto_mock_tools.Proxy.Forward.{Incoming}
use auto_mock_tools.Proxy.Chunks.Encoded.{encode, IsHex}
use auto_mock_tools.Proxy.Relay.Replay.{data_line, stream_of, replayed_event, replay_of}
use auto_mock_tools.Proxy.Relay.Stuttered.{stuttered, IsChunked}
use auto_mock_tools.Proxy.Handle.{ProxyHandler, Network, streams, Handled, wants_stream, is_chunked}
use auto_mock_tools.Proxy.Handle.Replay.{connection}
use auto_mock_tools.Proxy.Handle.Chunked.{
  chunked_request, chunked_response, chunks_dispatched, dispatch_chunks_normalizes,
}
use auto_mock_tools.TestServers.{TestServer, handler_of, flushed, test_event, decimal}
use auto_mock_tools.TestServers.Streams.{test_payloads, flushed-handler_of}

-- the event as encoding/json writes it
abbrev pub compact_event : ℕ → Bytes
unfolding decimal
compact_event i =
    codes "{\"event\":\"message_"
    ++ decimal i
    ++ codes "\",\"value\":"
    ++ decimal (i * 10)
    ++ codes "}"

abbrev pub compact_payloads : List Bytes
compact_payloads = compact_event 0 ∷ compact_event 1 ∷ compact_event 2 ∷ []

module _ {F : Type 0} (host : Host F) where
  abbrev pub IsLineEnds : Bytes → Type 0
  IsLineEnds = All (λ c. c ≡ b'\n')

  -- strings.TrimSpace takes line ends off a text that starts with 'd' and ends with '}', and no more.
  abbrev pub TrimsLineEnds : Type 0
  TrimsLineEnds =
      (before inner after : Bytes)
      → IsLineEnds before
      → IsLineEnds after
      → host.trim_space (before ++ ((b'd' ∷ (inner ++ codes "}")) ++ after))
        ≡ b'd' ∷ (inner ++ codes "}")

  -- encoding/json reads an event of the test servers as an object of a text and a number, and
  -- writes that object with no blanks.
  pub record ReadsEvent (i : ℕ) : Type 0 where
    pub value : F
    pub read :
        host.unmarshal (test_event i)
        ≡ some (
            obj (
              fields (
                (codes "event", str (codes "message_" ++ decimal i))
                ∷ (codes "value", num value)
                ∷ [])))
    pub written :
        host.marshal (
          obj (
            fields (
              (codes "event", str (codes "message_" ++ decimal i))
              ∷ (codes "value", num value)
              ∷ [])))
        ≡ some (compact_event i)

  replayed_event-test_event :
      (i : ℕ) → ReadsEvent i → replayed_event host (test_event i) ≡ data_event (compact_event i)
  unfolding json_or_text is_done marshal_event
  replayed_event-test_event i h = rw (json_or_text, h.read) (rw (marshal_event, h.written) refl)

  replay_of-test_payloads :
      ReadsEvent 0
      → ReadsEvent 1
      → ReadsEvent 2
      → replay_of host test_payloads ≡ stream_of compact_payloads
  replay_of-test_payloads h0 h1 h2 =
      rw
        (
          replayed_event-test_event 0 h0,
          replayed_event-test_event 1 h1,
          replayed_event-test_event 2 h2,
        )
        refl

  module _ (clock : ℕ → F) (trims : TrimsLineEnds) where
    braced-IsChunked :
        (p inner : Bytes)
        → data_line p ≡ b'd' ∷ (inner ++ codes "}")
        → has_byte b'\n' p ≡ false
        → has_byte b'\r' p ≡ false
        → IsChunked host clock p
    braced-IsChunked p inner line one_line no_cr = record {
      data_text = record {
        one_line = one_line;
        trimmed =
            ap (λ l. host.trim_space (l ++ codes "\n\n")) line
            ∙ trims [] inner (codes "\n\n") tt (refl, (refl, tt))
            ∙ sym line;
      };
      no_cr = no_cr;
      trimmed_behind =
          ap (λ l. host.trim_space ((codes "\n" ++ (l ++ codes "\n")) ++ codes "\n")) line
          ∙ ap (λ l. host.trim_space (codes "\n" ++ l))
              (append_assoc (b'd' ∷ (inner ++ codes "}")) (codes "\n") (codes "\n"))
          ∙ trims (codes "\n") inner (codes "\n\n") (refl, tt) (refl, (refl, tt))
          ∙ sym line;
    }

    test_payloads-IsChunked : All (IsChunked host clock) test_payloads
    unfolding test_event decimal has_byte
    test_payloads-IsChunked = (
      braced-IsChunked (test_event 0) (codes "ata: {\"event\": \"message_0\", \"value\": 0") refl
          refl refl,
      (
        braced-IsChunked (test_event 1) (codes "ata: {\"event\": \"message_1\", \"value\": 10") refl
            refl refl,
        (
          braced-IsChunked (test_event 2) (codes "ata: {\"event\": \"message_2\", \"value\": 20")
              refl refl refl,
          tt,
        ),
      ),
    )

module _ {F : Type 0} (host : Host F) (scan_hex : Bytes → Option ℤ) (hex : ℕ → Bytes)
    (clock : ℕ → F) (elapsed : F) (disk : Disk) (proxy : ProxyHandler) (network : Network)
    (id time : Bytes) (incoming : Incoming) (response : Upstream) where
  -- the run of the proxy on the request, the request of its record, and the response
  abbrev pub captured : Handled F
  captured =
      chunks_dispatched host scan_hex hex clock elapsed disk proxy network id time incoming response
        test_payloads

  abbrev pub captured_request : RequestData F
  captured_request =
      chunked_request host scan_hex hex clock elapsed disk proxy network id time incoming response
        test_payloads

  abbrev pub captured_response : Assoc (Json F)
  captured_response =
      chunked_response host scan_hex hex clock elapsed disk proxy network id time incoming response
        test_payloads

  -- Each of the test servers that ask for no certificate, behind the proxy and with a chunk for
  -- each flush, is captured: the client gets its three events, with one empty line too many
  -- behind each, and the file that is recorded loads as a mock that answers with the three events
  -- in the form without blanks in which encoding/json writes them, if encoding/json reads and
  -- writes the events as documented, trimming takes the line ends around each data line and no
  -- more, sizes are written on one line and read back by Sscanf, the file is written, the
  -- request's URL parses, the recorded headers name an event stream, and the JSON text is read
  -- back as it was written.
  pub test_server_captured :
      (server : TestServer) (fallback file bytes path : Bytes)
      → equal incoming.method (codes "CONNECT") ≡ false
      → wants_stream incoming ≡ true
      → connection host scan_hex clock elapsed disk proxy network id time incoming response
          test_payloads
        ≡ streams response (encode hex (flushed (handler_of server)))
      → is_chunked response ≡ true
      → IsHex host scan_hex hex
      → TrimsLineEnds host
      → ReadsEvent host 0
      → ReadsEvent host 1
      → ReadsEvent host 2
      → captured.recorded ≡ some (ok (file, bytes))
      → RoundTrips host (record_json host (request_fields host captured_request) captured_response)
      → request_path host incoming.url ≡ ok path
      → record_content_type host (header_maps host captured_response).lower ≡ event_stream
      → (captured.sent ≡ some (stuttered test_payloads))
        × ((r : MockResponse F) × (parse_mock_record host bytes fallback ≡ ok r)
            × (r.body ≡ stream_of compact_payloads))
  test_server_captured server fallback file bytes path get wants connected chunked sizes trims h0 h1
        h2 saved back parsed stream =
      let (sent, (r, loaded, body)) =
        dispatch_chunks_normalizes host scan_hex hex clock elapsed disk proxy network id time
          incoming response test_payloads fallback file bytes path get wants
          (connected ∙ ap (λ cs. streams response (encode hex cs)) (flushed-handler_of server))
          chunked sizes (test_payloads-IsChunked host clock trims) saved back parsed stream in
      (sent, (r, loaded, body ∙ replay_of-test_payloads host h0 h1 h2))
