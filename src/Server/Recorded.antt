-- ===== src/Server/Recorded.antt =====
-- A stream through the proxy, the file that is recorded of it, and the mock server that serves it.
use auto_mock_tools.Prelude.{
  ℕ, ◌≡◌, sym, ap, ◌∙◌, subst, true, false, ◌||◌, List, [], Option, some, Bytes, codes, equal,
  equal_iff, arith, In, All, ok,
}
use auto_mock_tools.Ascii.{equal_fold_bytes}
use auto_mock_tools.Host.{Host, ℤ, FileSystem}
use auto_mock_tools.Storage.Types.{MockResponse}
use auto_mock_tools.Storage.Find.{normalize}
use auto_mock_tools.Storage.Find.Catalog.{NoPipe, Readable}
use auto_mock_tools.Storage.Load.Contents.{scan_base}
use auto_mock_tools.Storage.Load.Holds.{Holds, Holds-In}
use auto_mock_tools.Loader.Fields.{
  request_path, header_maps, record_content_type, record_mock_id, record_method,
}
use auto_mock_tools.Loader.Body.{event_stream}
use auto_mock_tools.Scenario.Types.{Externals}
use auto_mock_tools.Handlers.Calls.{Request, set_body}
use auto_mock_tools.Handlers.Lookup.{mock_id_of, wanted}
use auto_mock_tools.Recorder.{Upstream, Disk, RequestData, request_fields, record_json}
use auto_mock_tools.Recorder.Replay.{RoundTrips}
use auto_mock_tools.Proxy.Forward.{Incoming, request_data}
use auto_mock_tools.Proxy.Relay.Replay.{stream_of, IsPayload}
use auto_mock_tools.Proxy.Handle.{
  ProxyHandler, Network, streams, wants_stream, is_chunked, saved_headers_from, dispatch,
}
use auto_mock_tools.Proxy.Handle.Replay.{
  Fits, connection, stream_request, stream_response, stream_written, dispatch_stream_replays,
}
use auto_mock_tools.Proxy.Replay.{recorded-IsPlacedAt}
use auto_mock_tools.Server.{Flags, Server, start, serve}
use auto_mock_tools.Server.Answers.{is_stats, is_list, started}
use auto_mock_tools.Server.Loaded.{matches, respond-set_body, serve_loaded-respond}

matches-true :
    {F : Type 0} (request : Request) (r : MockResponse F)
    → r.path ≡ request.path
    → r.mock_id ≡ mock_id_of request
    → r.content_type ≡ normalize (wanted request)
    → equal_fold_bytes r.method_bytes request.method ≡ true
    → matches request r ≡ true
matches-true request r path mock_id content_type method = ground (
  arith,
  (equal_iff r.path request.path).1 path,
  (equal_iff r.mock_id (mock_id_of request)).1 mock_id,
  (equal_iff r.content_type (normalize (wanted request))).1 content_type,
  method,
)

module _ {F : Type 0} (host : Host F) (scan_hex : Bytes → Option ℤ) (clock : ℕ → F) (elapsed : F)
    (disk : Disk) (proxy : ProxyHandler) (network : Network) (id time : Bytes) (incoming : Incoming)
    (response : Upstream) (ps : List Bytes) where
  abbrev pub recorded_request : RequestData F
  recorded_request =
      stream_request host scan_hex clock elapsed disk proxy network id time incoming response ps

  -- The upstream server answers the request for a stream with these payloads, which the scanner
  -- gives as they are, and the proxy writes these bytes for it, which are read back as written.
  pub record Captured (file bytes path : Bytes) : Type 0 where
    pub get : equal incoming.method (codes "CONNECT") ≡ false
    pub wants : wants_stream incoming ≡ true
    pub connected :
        connection host scan_hex clock elapsed disk proxy network id time incoming response ps
        ≡ streams response (stream_of ps)
    pub plain : is_chunked response ≡ false
    pub payloads : All (IsPayload host) ps
    pub fits : All Fits ps
    pub saved :
        (dispatch host scan_hex clock elapsed disk proxy network id time incoming).recorded
        ≡ some (ok (file, bytes))
    pub back : RoundTrips host (
        record_json host (request_fields host recorded_request) (
          stream_response host scan_hex clock elapsed disk proxy network id time incoming response
            ps))
    pub parsed : request_path host incoming.url ≡ ok path
    pub stream :
        record_content_type host
          (header_maps host (
            stream_response host scan_hex clock elapsed disk proxy network id time incoming response
              ps)).lower
        ≡ event_stream

  -- The request to the mock server is for the recorded one.
  pub record Asks (folder path : Bytes) (request : Request) : Type 0 where
    pub path_same : request.path ≡ path
    pub mock_id_same :
        mock_id_of request ≡ record_mock_id host folder (request_fields host recorded_request)
    pub type_same : normalize (wanted request) ≡ event_stream
    pub method_same :
        equal_fold_bytes (record_method host (request_fields host recorded_request)) request.method
        ≡ true
    pub no_pipe : NoPipe request.path (mock_id_of request)
    pub no_endpoint : (is_stats request || is_list request) ≡ false
    pub one_type : equal (request.peek (codes "Accept")) (codes "*/*") ≡ false

  pub Captured-matches :
      (folder file bytes path : Bytes) (request : Request) (r : MockResponse F)
      → Captured file bytes path
      → Asks folder path request
      → auto_mock_tools.Loader.parse_mock_record host bytes folder ≡ ok r
      → matches request r ≡ true
  unfolding request_data
  Captured-matches folder file bytes path request r c asks loaded =
      let placed =
        recorded-IsPlacedAt host clock disk proxy.base_dir recorded_request
          (network.released_status response) elapsed (saved_headers_from host [] response.headers)
          ps folder file bytes path r
          (stream_written host scan_hex clock elapsed disk proxy network id time incoming response
            ps file bytes c.get c.wants c.connected c.plain c.fits c.saved)
          c.back c.parsed loaded in
      matches-true request r (placed.path_kept ∙ sym asks.path_same)
        (placed.mock_id_kept ∙ sym asks.mock_id_same)
        (placed.content_type_kept ∙ c.stream ∙ sym asks.type_same)
        (ap (λ m. equal_fold_bytes m request.method) placed.method_bytes_kept ∙ asks.method_same)

  module _ {Op : Type 0} (files : FileSystem) (externals : Externals F Op) (flags : Flags F)
      (server : Server F Op) (e : start host files externals disk flags ≡ ok server) where
    -- A stream that the proxy captures is served by the mock server byte for byte, where a folder
    -- of the server's mock directory holds the file that the proxy wrote, the server is started
    -- without a scenario file and without timing, the request is for the recorded one, names its
    -- type and is for no endpoint of the server, at most one loaded response is for it, and no
    -- path and mock id holds a '|'. The proxy captures a stream if the upstream server answers
    -- the client's request for one with data lines, each followed by an empty line and not
    -- chunked, each payload stands on one line of at most 65535 bytes with no carriage return, is
    -- left alone by trimming, and is the end marker or the text that its JSON value is marshalled
    -- to, the file is written, the request's URL parses, the recorded headers name an event
    -- stream, and the JSON text is read back as it was written.
    pub recorded_stream_served :
        (folder file bytes path : Bytes) (random : F) (request : Request)
        → Captured file bytes path
        → Holds files flags.mock_dir folder bytes
        → flags.mock_config ≡ []
        → flags.replay_timing ≡ false
        → All Readable (scan_base host files flags.mock_dir)
        → Asks folder path request
        → ((x y : MockResponse F)
            → In x (scan_base host files flags.mock_dir)
            → In y (scan_base host files flags.mock_dir)
            → matches request x ≡ true
            → matches request y ≡ true
            → x ≡ y)
        → In (set_body (stream_of ps)) (serve host externals server random request)
    recorded_stream_served folder file bytes path random request c held no_config untimed readable
          asks unique =
        let (_, (r, loaded, body)) =
          dispatch_stream_replays host scan_hex clock elapsed disk proxy network id time incoming
            response ps folder file bytes path c.get c.wants c.connected c.plain c.payloads c.fits
            c.saved c.back c.parsed c.stream in
        let here = Holds-In host files flags.mock_dir folder bytes r held loaded in
        let for_it = Captured-matches folder file bytes path request r c asks loaded in
        subst (λ b. In (set_body b) (serve host externals server random request)) body
          (subst (In (set_body r.body))
            (sym (
              serve_loaded-respond host files externals disk flags server e random request r
                no_config readable asks.no_pipe asks.no_endpoint asks.one_type here for_it
                (λ x i m. unique x r i here m for_it)))
            (respond-set_body host server.store random r
              ((started host files externals disk flags server e).replay_timing ∙ untimed)))
