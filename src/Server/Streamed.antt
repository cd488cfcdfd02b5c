-- ===== src/Server/Streamed.antt =====
-- A stream through the proxy, the file that is recorded of it, and the mock server that replays it
-- with timing while it answers other requests.
use auto_mock_tools.Prelude.{
  ℕ, ◌≡◌, refl, sym, ap, ◌∙◌, subst, true, List, [], ◌∷◌, ◌++◌, Bytes, codes, In, All, ok, Option,
}
use auto_mock_tools.Host.{Host, ℤ, FileSystem}
use auto_mock_tools.Storage.Types.{MockResponse, SseEvent}
use auto_mock_tools.Storage.Find.Catalog.{Readable}
use auto_mock_tools.Storage.Load.Contents.{scan_base}
use auto_mock_tools.Storage.Load.Holds.{Holds, Holds-In}
use auto_mock_tools.Loader.{parse_mock_record}
use auto_mock_tools.Loader.Body.{data_event, sse_events_of}
use auto_mock_tools.Scenario.Types.{Externals}
use auto_mock_tools.Scenario.Load.{has_events}
use auto_mock_tools.Handlers.{jitter_scale}
use auto_mock_tools.Handlers.Calls.{Request, stream_body}
use auto_mock_tools.Handlers.Stream.{stream_to, written}
use auto_mock_tools.Handlers.Pool.{StreamWriter, Stream, System, Reach}
use auto_mock_tools.Handlers.Pool.Invariant.{finished_streams_whole}
use auto_mock_tools.Recorder.{Upstream, Disk}
use auto_mock_tools.Recorder.Replay.{record_sse_pair-ReplaysEvents}
use auto_mock_tools.Proxy.Forward.{Incoming, request_data}
use auto_mock_tools.Proxy.Relay.Replay.{stream_of}
use auto_mock_tools.Proxy.Relay.Events.{relay_lines_streams}
use auto_mock_tools.Proxy.Replay.{relayed_events}
use auto_mock_tools.Proxy.Handle.{ProxyHandler, Network, saved_headers_from}
use auto_mock_tools.Proxy.Handle.Replay.{stream_written}
use auto_mock_tools.Server.{Flags, Server, start, serve}
use auto_mock_tools.Server.Answers.{started}
use auto_mock_tools.Server.Loaded.{matches, respond-stream_body, serve_loaded-respond}
use auto_mock_tools.Server.Recorded.{recorded_request, Captured, Asks, Captured-matches}

module _ {F : Type 0} (host : Host F) (scan_hex : Bytes → Option ℤ) (clock : ℕ → F) (elapsed : F)
    (disk : Disk) (proxy : ProxyHandler) (network : Network) (id time : Bytes) (incoming : Incoming)
    (response : Upstream) (p : Bytes) (ps : List Bytes) where
  -- the events that the proxy keeps of the stream
  abbrev kept_events : List (SseEvent F)
  kept_events = sse_events_of host (
      relayed_events host clock disk proxy.base_dir
        (recorded_request host scan_hex clock elapsed disk proxy network id time incoming response
          (p ∷ ps))
        (network.released_status response) elapsed (saved_headers_from host [] response.headers)
        (p ∷ ps))

  -- A response with no events would be streamed as no bytes.
  streamed-has_events :
      (events : List (SseEvent F)) (scale : F)
      → written (stream_to host scale events) ≡ stream_of (p ∷ ps)
      → has_events events ≡ true
  unfolding stream_to written data_event
  streamed-has_events [] scale h =
      let no : ◌≡◌ {A = Bytes} [] (b'd' ∷ ((codes "ata: " ++ p ++ codes "\n\n") ++ stream_of ps)) =
        h in
      cc
  streamed-has_events (e ∷ es) scale h = refl

  -- What the loader makes of the recorded file.
  Captured-ReplaysEvents :
      (folder file bytes path : Bytes)
      → Captured host scan_hex clock elapsed disk proxy network id time incoming response
          (p ∷ ps)
          file
          bytes
          path
      → (r : MockResponse F) × (parse_mock_record host bytes folder ≡ ok r)
        × (r.is_sse ≡ true)
        × (r.sse_events ≡ kept_events)
  unfolding request_data
  Captured-ReplaysEvents folder file bytes path c =
      let (r, loaded, kept) =
        record_sse_pair-ReplaysEvents host disk proxy.base_dir
          (recorded_request host scan_hex clock elapsed disk proxy network id time incoming response
            (p ∷ ps))
          (network.released_status response) _ elapsed (saved_headers_from host [] response.headers)
          folder file bytes path
          (stream_written host scan_hex clock elapsed disk proxy network id time incoming response
            (p ∷ ps) file bytes c.get c.wants c.connected c.plain c.fits c.saved)
          c.back c.parsed c.stream in
      (r, loaded, kept.is_sse, kept.sse_events)

  module _ {Op : Type 0} (files : FileSystem) (externals : Externals F Op) (flags : Flags F)
      (server : Server F Op) (e : start host files externals disk flags ≡ ok server) where
    -- A stream that the proxy captures, of one payload at least, is replayed by the mock server
    -- with timing byte for byte: the answer hands some events and a jitter scale to a stream
    -- writer, and in every state that the goroutines of any requests reach, however they
    -- interleave and reuse writers, a stream of these events and this scale that has ended has
    -- written the captured bytes. The conditions: a folder of the server's mock directory holds
    -- the file that the proxy wrote, the server is started without a scenario file and with
    -- timing, the request is for the recorded one, names its type and is for no endpoint of the
    -- server, at most one loaded response is for it, and no path and mock id holds a '|'. The
    -- proxy captures a stream under the conditions of Captured in Server.Recorded.
    pub recorded_stream_streamed :
        (folder file bytes path : Bytes) (random : F) (request : Request)
        → Captured host scan_hex clock elapsed disk proxy network id time incoming response
            (p ∷ ps)
            file
            bytes
            path
        → Holds files flags.mock_dir folder bytes
        → flags.mock_config ≡ []
        → flags.replay_timing ≡ true
        → All Readable (scan_base host files flags.mock_dir)
        → Asks host scan_hex clock elapsed disk proxy network id time incoming response
            (p ∷ ps)
            folder
            path
            request
        → ((x y : MockResponse F)
            → In x (scan_base host files flags.mock_dir)
            → In y (scan_base host files flags.mock_dir)
            → matches request x ≡ true
            → matches request y ≡ true
            → x ≡ y)
        → (w : StreamWriter F) × In
            (stream_body w.events w.jitter_scale)
            (serve host externals server random request)
          × ((t : System F) (s : Stream F)
              → Reach host t
              → In s t.finished
              → s.wanted ≡ w
              → written s.steps ≡ stream_of (p ∷ ps))
    recorded_stream_streamed folder file bytes path random request c held no_config timed readable
          asks unique =
        let (r, loaded, sse, events) = Captured-ReplaysEvents folder file bytes path c in
        let here = Holds-In host files flags.mock_dir folder bytes r held loaded in
        let for_it =
          Captured-matches host scan_hex clock elapsed disk proxy network id time incoming response
            (p ∷ ps) folder file bytes path request r c asks loaded in
        let scale = jitter_scale host server.store.jitter random in
        let streamed : (x : F) → written (stream_to host x r.sse_events) ≡ stream_of (p ∷ ps) = λ x.
          ap (λ es. written (stream_to host x es)) events
          ∙ relay_lines_streams host clock x (p ∷ ps) c.payloads in
        (
          record { events = r.sse_events; jitter_scale = scale },
          subst (In (stream_body r.sse_events scale))
              (sym (
                serve_loaded-respond host files externals disk flags server e random request r
                  no_config readable asks.no_pipe asks.no_endpoint asks.one_type here for_it
                  (λ x i m. unique x r i here m for_it)))
              (respond-stream_body host server.store random r sse
                (streamed-has_events r.sse_events scale (streamed scale))
                ((started host files externals disk flags server e).replay_timing ∙ timed)),
          λ t s r' i same.
              ap written (finished_streams_whole host t s r' i)
              ∙ ap (λ (v : StreamWriter F). written (stream_to host v.jitter_scale v.events)) same
              ∙ streamed scale,
        )
