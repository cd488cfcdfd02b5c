-- ===== src/Proxy/Handle/Answers.antt =====
-- The headers that the proxy sends back to the client.
use auto_mock_tools.Prelude.{
  ◌≡◌, refl, false, inl, inr, Bool-cases, List, [], ◌∷◌, Option, none, some, Bytes, codes, equal,
  contains, Assoc, All, All-map, if◌then◌else◌, ℕ,
}
use auto_mock_tools.Host.{Host, ℤ}
use auto_mock_tools.Handlers.Calls.{Call, set_header}
use auto_mock_tools.Recorder.{RequestData, Upstream, Disk}
use auto_mock_tools.Proxy.Forward.{
  Incoming, Stops, hop_headers, return_response-Stops, handle_connect, request_data,
  prepare_request,
}
use auto_mock_tools.Proxy.Handle.{
  ProxyHandler, Network, Connection, not_connected, not_written, not_flushed, no_header, streams,
  stream_hop_headers, stream_headers, wants_stream, is_https, target_host, handle_sse_streaming,
  handle_response, handle, dispatch,
}

module _ {F : Type 0} (host : Host F) where
  -- The call sets none of these headers, in the case-folding of strings.ToLower.
  abbrev pub Withholds : List Bytes → Call F → Type 0
  Withholds names (set_header key value) = contains names (host.to_lower key) ≡ false
  Withholds names _ = Unit

  stream_headers-Withholds :
      (m : Assoc Bytes) → All (Withholds stream_hop_headers) (stream_headers host m)
  unfolding stream_headers
  stream_headers-Withholds [] = tt
  stream_headers-Withholds ((key, value) ∷ m) =
      elim (Bool-cases (contains stream_hop_headers (host.to_lower key))) [
        | inl hop ↦ rw hop (stream_headers-Withholds m)
        | inr free ↦ rw free (free, stream_headers-Withholds m)
      ]

module _ {F : Type 0} (host : Host F) (scan_hex : Bytes → Option ℤ) (clock : ℕ → F) (elapsed : F)
    (disk : Disk) (proxy : ProxyHandler) (network : Network) where
  handle_sse_streaming-Withholds :
      (request : RequestData F) (connection : Connection)
      → All
          (Withholds host stream_hop_headers)
          (handle_sse_streaming host scan_hex clock elapsed disk proxy network request
            connection).calls
  unfolding handle_sse_streaming
  handle_sse_streaming-Withholds request not_connected = (tt, (tt, tt))
  handle_sse_streaming-Withholds request not_written = (tt, (tt, tt))
  handle_sse_streaming-Withholds request not_flushed = (tt, (tt, tt))
  handle_sse_streaming-Withholds request no_header = (tt, (tt, tt))
  handle_sse_streaming-Withholds request (streams response body) =
      (tt, stream_headers-Withholds host response.headers)

  handle_response-Stops :
      (request : RequestData F) (o : Option Upstream)
      → All
          (Stops host)
          (handle_response host scan_hex clock elapsed disk proxy network request o).calls
  unfolding handle_response
  handle_response-Stops request none = return_response-Stops host network.failure none
  handle_response-Stops request (some response) =
      return_response-Stops host network.failure (some response)

  Stops-Withholds : (c : Call F) → Stops host c → Withholds host hop_headers c
  Stops-Withholds (set_header key value) h = h
  Stops-Withholds _ h = tt

  -- the headers that are kept from the client of a request
  abbrev pub withheld : Incoming → List Bytes
  withheld incoming = if wants_stream incoming then stream_hop_headers else hop_headers

  pub handle_lem :
      (id time : Bytes) (incoming : Incoming)
      → handle host scan_hex clock elapsed disk proxy network id time incoming ≡ (
          if wants_stream incoming
          then handle_sse_streaming host scan_hex clock elapsed disk proxy network
              (request_data host id time incoming)
              (network.connect proxy.certificate
                (is_https proxy.target_url)
                (target_host proxy.target_url)
                (prepare_request host proxy.target_url incoming))
          else handle_response host scan_hex clock elapsed disk proxy network
              (request_data host id time incoming)
              (network.send proxy.certificate (prepare_request host proxy.target_url incoming)))
  unfolding handle
  handle_lem id time incoming = refl

  handle-Withholds :
      (id time : Bytes) (incoming : Incoming)
      → All
          (Withholds host (withheld incoming))
          (handle host scan_hex clock elapsed disk proxy network id time incoming).calls
  handle-Withholds id time incoming = rw handle_lem (elim (Bool-cases (wants_stream incoming)) [
    | inl wants ↦ rw wants (handle_sse_streaming-Withholds (request_data host id time incoming) _)
    | inr plain ↦
        rw plain
          (All-map Stops-Withholds _ (handle_response-Stops (request_data host id time incoming) _))
  ])

  -- The answer of the proxy to any request, whatever the network does, sets no hop-by-hop header
  -- of the list for its kind of request, a stream or not, and never x-mock-id.
  pub dispatch-Withholds :
      (id time : Bytes) (incoming : Incoming)
      → All
          (Withholds host (withheld incoming))
          (dispatch host scan_hex clock elapsed disk proxy network id time incoming).calls
  unfolding dispatch handle_connect
  dispatch-Withholds id time incoming =
      elim (Bool-cases (equal incoming.method (codes "CONNECT"))) [
        | inl connect ↦ rw connect (tt, (tt, tt))
        | inr other ↦ rw other (handle-Withholds id time incoming)
      ]
