-- ===== src/Proxy/Handle/Chunked.antt =====
-- A chunked stream through the proxy, from the upstream server's bytes to the mock server's answer.
use auto_mock_tools.Prelude.{
  ◌≡◌, refl, sym, ap, ◌∙◌, true, false, List, [], map, Option, some, some_injective, Bytes, codes,
  Assoc, equal, ok, All, ℕ,
}
use auto_mock_tools.Json.{Json}
use auto_mock_tools.Host.{Host, ℤ}
use auto_mock_tools.Storage.Types.{MockResponse}
use auto_mock_tools.Loader.{parse_mock_record}
use auto_mock_tools.Loader.Fields.{request_path, header_maps, record_content_type}
use auto_mock_tools.Loader.Body.{event_stream, data_event, sse_body_from}
use auto_mock_tools.Recorder.{
  RequestData, Upstream, Disk, request_fields, record_json, record_sse_pair,
}
use auto_mock_tools.Recorder.Replay.{RoundTrips, sse_response, record_sse_pair-ReplaysEvents}
use auto_mock_tools.Proxy.Forward.{Incoming, request_data}
use auto_mock_tools.Proxy.Chunks.{chunks_of}
use auto_mock_tools.Proxy.Chunks.Encoded.{encode, IsHex, chunks_of-encode}
use auto_mock_tools.Proxy.Relay.{relay_start, relay_chunks}
use auto_mock_tools.Proxy.Relay.Replay.{replay_of}
use auto_mock_tools.Proxy.Relay.Stuttered.{
  stuttered, IsChunked, relay_chunks_stutters, data_event-ne_nil,
}
use auto_mock_tools.Proxy.Handle.{
  ProxyHandler, Network, streams, Handled, wants_stream, is_chunked, saved_headers_from, relay_body,
  recorded_stream,
}
use auto_mock_tools.Proxy.Handle.Replay.{
  connection, stream_request, dispatched, dispatch_stream, stream_sent, stream_recorded,
}

module _ {F : Type 0} (host : Host F) (scan_hex : Bytes → Option ℤ) (hex : ℕ → Bytes)
    (clock : ℕ → F) (elapsed : F) (disk : Disk) (proxy : ProxyHandler) (network : Network)
    (id time : Bytes) (incoming : Incoming) (response : Upstream) (ps : List Bytes) where
  -- the body, with each event in a chunk of its own
  abbrev pub chunked_body : Bytes
  chunked_body = encode hex (map data_event ps)

  abbrev pub chunked_request : RequestData F
  chunked_request =
      stream_request host scan_hex clock elapsed disk proxy network id time incoming response ps

  -- what is kept of the chunks for the record
  abbrev pub chunked_response : Assoc (Json F)
  chunked_response =
      sse_response host disk proxy.base_dir chunked_request (network.released_status response)
        (relay_chunks host clock relay_start (chunks_of host scan_hex chunked_body).chunks).events
        elapsed (saved_headers_from host [] response.headers)

  abbrev pub chunks_dispatched : Handled F
  chunks_dispatched =
      dispatched host scan_hex clock elapsed disk proxy network id time incoming response ps

  relay_body-chunked :
      is_chunked response ≡ true
      → relay_body host scan_hex clock elapsed disk proxy network response chunked_body
        ≡ relay_chunks host clock relay_start (chunks_of host scan_hex chunked_body).chunks
  unfolding relay_body
  relay_body-chunked chunked = rw chunked refl

  recorded_stream-chunked :
      is_chunked response ≡ true
      → IsHex host scan_hex hex
      → recorded_stream host scan_hex clock elapsed disk proxy network chunked_request response
          chunked_body
        ≡ some (
            record_sse_pair host disk proxy.base_dir chunked_request
              (network.released_status response)
              (relay_body host scan_hex clock elapsed disk proxy network response
                chunked_body).events
              elapsed
              (saved_headers_from host [] response.headers))
  unfolding recorded_stream
  recorded_stream-chunked chunked sizes =
      rw
        (
          chunked,
          chunks_of-encode host scan_hex hex (map data_event ps) sizes (data_event-ne_nil ps),
        )
        refl

  -- A request for an event stream, to an upstream server that answers in chunks, each with one
  -- data line and the empty line behind it, is answered with the stream with one empty line too
  -- many behind each event, while the file that is recorded of it loads as a mock whose body is
  -- the stream of the same payloads, each in the form in which encoding/json writes its value, a
  -- text that is no JSON as a JSON string, and the end marker as itself, an event whose value
  -- cannot be marshalled left out, if no payload holds a line end or a carriage return, trimming
  -- takes the line ends around each data line and no more, sizes are written on one line and read
  -- back by Sscanf, the file is written, the request's URL parses, the recorded headers name an
  -- event stream, and the JSON text is read back as it was written.
  pub dispatch_chunks_normalizes :
      (fallback file bytes path : Bytes)
      → equal incoming.method (codes "CONNECT") ≡ false
      → wants_stream incoming ≡ true
      → connection host scan_hex clock elapsed disk proxy network id time incoming response ps
        ≡ streams response chunked_body
      → is_chunked response ≡ true
      → IsHex host scan_hex hex
      → All (IsChunked host clock) ps
      → chunks_dispatched.recorded ≡ some (ok (file, bytes))
      → RoundTrips host (record_json host (request_fields host chunked_request) chunked_response)
      → request_path host incoming.url ≡ ok path
      → record_content_type host (header_maps host chunked_response).lower ≡ event_stream
      → (chunks_dispatched.sent ≡ some (stuttered ps))
        × ((r : MockResponse F) × (parse_mock_record host bytes fallback ≡ ok r)
            × (r.body ≡ replay_of host ps))
  unfolding request_data sse_body_from
  dispatch_chunks_normalizes fallback file bytes path get wants connected chunked sizes payloads
        saved back parsed stream =
      let answered =
        dispatch_stream host scan_hex clock elapsed disk proxy network id time incoming response ps
          chunked_body get wants connected in
      let relayed = relay_chunks_stutters host clock scan_hex hex ps sizes payloads in
      let body = relay_body-chunked chunked in
      let written = some_injective (
        sym (
          ap (λ (h : Handled F). h.recorded) answered
          ∙ stream_recorded host scan_hex clock elapsed disk proxy network id time incoming response
              ps chunked_body
          ∙ recorded_stream-chunked chunked sizes
          ∙ ap
              (λ s. some (
                record_sse_pair host disk proxy.base_dir chunked_request
                  (network.released_status response) s.events elapsed
                  (saved_headers_from host [] response.headers)))
              body)
        ∙ saved) in
      let (r, loaded, kept) =
        record_sse_pair-ReplaysEvents host disk proxy.base_dir chunked_request
          (network.released_status response) _ elapsed (saved_headers_from host [] response.headers)
          fallback file bytes path written back parsed stream in
      (
        ap (λ (h : Handled F). h.sent) answered
            ∙ stream_sent host scan_hex clock elapsed disk proxy network id time incoming response
                ps chunked_body
            ∙ ap (λ s. some s.sent) body
            ∙ ap some relayed.sent_on,
        (r, loaded, kept.body ∙ relayed.body),
      )
