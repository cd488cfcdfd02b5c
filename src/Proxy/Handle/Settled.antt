-- ===== src/Proxy/Handle/Settled.antt =====
-- A captured stream that is loaded as a mock, served to a second proxy, captured again and loaded
-- again.
use auto_mock_tools.Prelude.{
  ℕ, ◌≡◌, inl, inr, refl, sym, ap, ◌∙◌, false, true, List, [], ◌∷◌, ◌++◌, Bool-cases, Option, none,
  some, if◌then◌else◌, Bytes, codes, equal, has_byte, ok, All,
}
use auto_mock_tools.Host.{Host, ℤ}
use auto_mock_tools.Storage.Types.{MockResponse}
use auto_mock_tools.Loader.{parse_mock_record}
use auto_mock_tools.Loader.Fields.{request_path, header_maps, record_content_type}
use auto_mock_tools.Loader.Body.{event_stream, data_event, is_done, marshal_event}
use auto_mock_tools.Recorder.{Upstream, Disk, json_or_text, request_fields, record_json}
use auto_mock_tools.Recorder.Replay.{RoundTrips}
use auto_mock_tools.Proxy.Forward.{Incoming}
use auto_mock_tools.Proxy.Relay.Replay.{
  data_line, stream_of, replayed_event, replay_of, IsData, IsPayload,
}
use auto_mock_tools.Proxy.Handle.{
  ProxyHandler, Network, streams, wants_stream, is_chunked, dispatch,
}
use auto_mock_tools.Proxy.Handle.Replay.{
  Fits, connection, stream_request, stream_response, dispatch_stream_normalizes,
  dispatch_stream_replays,
}

module _ {F : Type 0} (host : Host F) where
  -- The value of the payload is marshalled as a text on one line that fits the scanner, which
  -- trimming leaves alone and which is read back as the value.
  pub record IsKept (p : Bytes) : Type 0 where
    pub bytes : Bytes
    pub marshalled : host.marshal (json_or_text host p) ≡ some bytes
    pub read : host.unmarshal bytes ≡ some (json_or_text host p)
    pub fits : Fits bytes
    pub trimmed : host.trim_space (data_line bytes ++ codes "\n\n") ≡ data_line bytes

  -- The end marker is no JSON, and trimming leaves its line alone.
  pub record KeepsMarker : Type 0 where
    pub no_json : host.unmarshal (codes "[DONE]") ≡ none
    pub trimmed :
        host.trim_space (data_line (codes "[DONE]") ++ codes "\n\n") ≡ data_line (codes "[DONE]")

  -- What a payload becomes: the end marker, or the text that its value is marshalled to.
  abbrev pub settled : Bytes → Bytes
  settled p =
      let payload = json_or_text host p in
      if is_done payload
      then codes "[DONE]"
      else elim (host.marshal payload) [ none ↦ [] | some bytes ↦ bytes ]

  abbrev pub settled_of : List Bytes → List Bytes
  settled_of [] = []
  settled_of (p ∷ ps) = settled p ∷ settled_of ps

  replayed_event-settled : (p : Bytes) → IsKept p → replayed_event host p ≡ data_event (settled p)
  unfolding marshal_event data_event
  replayed_event-settled p h = elim (Bool-cases (is_done (json_or_text host p))) [
    | inl done ↦ rw done refl
    | inr other ↦ rw (other, marshal_event, h.marshalled) refl
  ]

  replay_of-settled :
      (ps : List Bytes) → All IsKept ps → replay_of host ps ≡ stream_of (settled_of ps)
  replay_of-settled [] h = refl
  replay_of-settled (p ∷ ps) h =
      ap (λ chunk. chunk ++ replay_of host ps) (replayed_event-settled p h.0)
      ∙ ap (λ bytes. data_event (settled p) ++ bytes) (replay_of-settled ps h.1)

  settled-IsPayload : (p : Bytes) → KeepsMarker → IsKept p → IsPayload host (settled p)
  unfolding has_byte
  settled-IsPayload p k h = elim (Bool-cases (is_done (json_or_text host p))) [
    | inl done ↦
        rw done (record { one_line = refl; trimmed = k.trimmed; canonical = inl (refl, k.no_json) })
    | inr other ↦
        rw (other, h.marshalled)
          (record {
            one_line = h.fits.one_line;
            trimmed = h.trimmed;
            canonical = inr (json_or_text host p, h.read, h.marshalled, other);
          })
  ]

  settled-Fits : (p : Bytes) → IsKept p → Fits (settled p)
  unfolding has_byte
  settled-Fits p h = elim (Bool-cases (is_done (json_or_text host p))) [
    | inl done ↦ rw done (record { one_line = refl; no_cr = refl; short = refl })
    | inr other ↦
        rw (other, h.marshalled)
          (record { one_line = h.fits.one_line; no_cr = h.fits.no_cr; short = h.fits.short })
  ]

  settled_of-IsPayload :
      (ps : List Bytes) → KeepsMarker → All IsKept ps → All (IsPayload host) (settled_of ps)
  settled_of-IsPayload [] k h = tt
  settled_of-IsPayload (p ∷ ps) k h = (settled-IsPayload p k h.0, settled_of-IsPayload ps k h.1)

  settled_of-Fits : (ps : List Bytes) → All IsKept ps → All Fits (settled_of ps)
  settled_of-Fits [] h = tt
  settled_of-Fits (p ∷ ps) h = (settled-Fits p h.0, settled_of-Fits ps h.1)

  module _ (scan_hex : Bytes → Option ℤ) where
    -- The proxy is asked for an event stream, whose response is not chunked, and it writes these
    -- bytes for the stream with these payloads, which are read back as written.
    pub record Writes (clock : ℕ → F) (elapsed : F) (disk : Disk) (proxy : ProxyHandler)
        (network : Network) (id time : Bytes) (incoming : Incoming) (response : Upstream)
        (ps : List Bytes) (file bytes path : Bytes) : Type 0 where
      pub get : equal incoming.method (codes "CONNECT") ≡ false
      pub wants : wants_stream incoming ≡ true
      pub plain : is_chunked response ≡ false
      pub saved :
          (dispatch host scan_hex clock elapsed disk proxy network id time incoming).recorded
          ≡ some (ok (file, bytes))
      pub back : RoundTrips host (
          record_json host
            (request_fields host (
              stream_request host scan_hex clock elapsed disk proxy network id time incoming
                response ps))
            (stream_response host scan_hex clock elapsed disk proxy network id time incoming
              response ps))
      pub parsed : request_path host incoming.url ≡ ok path
      pub stream :
          record_content_type host
            (header_maps host (
              stream_response host scan_hex clock elapsed disk proxy network id time incoming
                response ps)).lower
          ≡ event_stream

    module _ (clock clock' : ℕ → F) (elapsed elapsed' : F) (disk disk' : Disk)
        (proxy proxy' : ProxyHandler) (network network' : Network) (id id' time time' : Bytes)
        (incoming incoming' : Incoming) (response response' : Upstream) (ps : List Bytes) where
      -- The record of a stream that is captured loads as a mock whose body is the stream of the
      -- payloads in the form in which encoding/json writes their values, the end marker as
      -- itself; and where a proxy is given that body by its upstream server, it sends that body
      -- on unchanged, and the file that it records loads as a mock with the same body. Each
      -- payload stands on one line of at most 65535 bytes with no carriage return, is left alone
      -- by trimming, and has a value that is marshalled as a text of which the same holds and
      -- which is read back as the value, and the end marker is no JSON and is left alone by
      -- trimming; both requests are for an event stream, both responses are not chunked, both
      -- files are written, the URLs parse, the recorded headers name an event stream, and the
      -- JSON texts are read back as they were written.
      pub replay_settles :
          (fallback file file' bytes bytes' path path' : Bytes)
          → KeepsMarker
          → All IsKept ps
          → All (IsData host) ps
          → All Fits ps
          → connection host scan_hex clock elapsed disk proxy network id time incoming response ps
            ≡ streams response (stream_of ps)
          → Writes clock elapsed disk proxy network id time incoming response ps file bytes path
          → ((r : MockResponse F)
              → parse_mock_record host bytes fallback ≡ ok r
              → connection host scan_hex clock' elapsed' disk' proxy' network' id' time' incoming'
                  response'
                  (settled_of ps)
                ≡ streams response' r.body)
          → Writes clock' elapsed' disk' proxy' network' id' time' incoming' response'
              (settled_of ps)
              file'
              bytes'
              path'
          → (r r' : MockResponse F) × (parse_mock_record host bytes fallback ≡ ok r)
            × (r.body ≡ stream_of (settled_of ps))
            × ((dispatch host scan_hex clock' elapsed' disk' proxy' network' id' time'
                  incoming').sent
                ≡ some r.body)
            × (parse_mock_record host bytes' fallback ≡ ok r')
            × (r'.body ≡ r.body)
      replay_settles fallback file file' bytes bytes' path path' k kept payloads fits connected w
            served w' =
          let (sent, (r, loaded, body)) =
            dispatch_stream_normalizes host scan_hex clock elapsed disk proxy network id time
              incoming response ps fallback file bytes path w.get w.wants connected w.plain payloads
              fits w.saved w.back w.parsed w.stream in
          let same = body ∙ replay_of-settled ps kept in
          let (sent', (r', loaded', body')) =
            dispatch_stream_replays host scan_hex clock' elapsed' disk' proxy' network' id' time'
              incoming' response' (settled_of ps) fallback file' bytes' path' w'.get w'.wants
              (served r loaded ∙ ap (streams response') same) w'.plain
              (settled_of-IsPayload ps k kept) (settled_of-Fits ps kept) w'.saved w'.back w'.parsed
              w'.stream in
          (r, r', loaded, same, sent' ∙ ap some (sym same), loaded', body' ∙ sym same)
