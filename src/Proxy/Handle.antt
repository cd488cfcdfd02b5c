-- ===== src/Proxy/Handle.antt =====
-- pkg/proxy/handler.go: `Handle` and `handleSSEStreaming` around the calls of the network, and the
-- handler of cmd/auto-proxy/main.go.
pub mod Answers
pub mod Replay
pub mod Settled
pub mod Chunked
pub mod Files
use auto_mock_tools.Prelude.{
  ℕ, Bool, true, false, not, ◌&&◌, ◌||◌, List, [], ◌∷◌, ◌++◌, Option, none, some, if◌then◌else◌,
  Bytes, codes, equal, is_empty, has_byte, has_prefix, contains, drop, length, Assoc, insert,
  Result,
}
use auto_mock_tools.Json.{Json}
use auto_mock_tools.Host.{Host, ℤ, pos}
use auto_mock_tools.Handlers.Calls.{Call, set_status_code, set_header, set_body}
use auto_mock_tools.Recorder.{Upstream, RequestData, Disk, record_pair, record_sse_pair}
use auto_mock_tools.Proxy.Forward.{
  Incoming, Prepare, prepare_request, request_data, return_response, handle_connect,
}
use auto_mock_tools.Proxy.Chunks.{Stop, panicked, ChunksRead, chunks_of}
use auto_mock_tools.Proxy.Scan.{scan_lines}
use auto_mock_tools.Proxy.Relay.{RelayState, relay_start, relay_lines, relay_chunks}

-- The proxy: the directory of its recorder, and the client certificate if one is loaded.
pub record ProxyHandler : Type 0 where
  pub base_dir : Bytes
  pub target_url : Bytes
  pub certificate : Option (Bytes × Bytes)

-- The connection of a stream: where it failed, or the header that was read and the bytes behind it.
pub data Connection : Type 0 where
  not_connected not_written not_flushed no_header : Connection
  streams : Upstream → Bytes → Connection

-- The network: `send` is the HTTP client, whose error text is `failure`, and `connect` a connection by
-- TLS or not, to an address, and the request that is written to it. The recorder is called on the
-- response of a stream when the handler has released it; `released_status` is its status by then.
pub record Network : Type 0 where
  pub send : Option (Bytes × Bytes) → List Prepare → Option Upstream
  pub failure : Bytes
  pub released_status : Upstream → ℤ
  pub connect : Option (Bytes × Bytes) → Bool → Bytes → List Prepare → Connection

-- What becomes of a request: the calls on the context, the stream that is sent as the body, and the
-- result of the recorder, where it is called.
pub record Handled (F : Type 0) : Type 0 where
  pub calls : List (Call F)
  pub sent : Option Bytes
  pub recorded : Option (Result (Bytes × Bytes))

-- `strings.Contains(s, text)`
unfoldable pub contains_text : Bytes → Bytes → Bool
contains_text text [] = has_prefix text []
contains_text text (c ∷ s) = has_prefix text (c ∷ s) || contains_text text s

abbrev trim_prefix : Bytes → Bytes → Bytes
trim_prefix prefix s = if has_prefix prefix s then drop (length prefix) s else s

abbrev pub is_https : Bytes → Bool
is_https target_url = has_prefix (codes "https://") target_url

unfoldable pub target_host : Bytes → Bytes
target_host target_url =
    let host = trim_prefix (codes "https://") (trim_prefix (codes "http://") target_url) in
    if has_byte b':' host
    then host
    else host ++ (if is_https target_url then codes ":443" else codes ":80")

abbrev pub wants_stream : Incoming → Bool
wants_stream incoming = contains_text (codes "text/event-stream") incoming.accept

-- the headers of a stream that are not sent back to the client
abbrev pub stream_hop_headers : List Bytes
stream_hop_headers =
    codes "connection"
    ∷ codes "keep-alive"
    ∷ codes "transfer-encoding"
    ∷ codes "content-length"
    ∷ codes "x-mock-id"
    ∷ []

abbrev pub is_chunked : Upstream → Bool
is_chunked response = equal (response.peek (codes "Transfer-Encoding")) (codes "chunked")

abbrev pub is_panicked : Stop → Bool
is_panicked panicked = true
is_panicked _ = false

module _ {F : Type 0} where
  abbrev pub bad_gateway : Bytes → Handled F
  bad_gateway text = record {
    calls = set_status_code (pos 502) ∷ set_body text ∷ [];
    sent = none;
    recorded = none;
  }

module _ {F : Type 0} (host : Host F) where
  unfoldable pub stream_headers : Assoc Bytes → List (Call F)
  stream_headers [] = []
  stream_headers ((key, value) ∷ rest) =
      let later = stream_headers rest in
      if contains stream_hop_headers (host.to_lower key)
      then later
      else set_header key value ∷ later

  -- the loop over the headers of the stream
  unfoldable pub saved_headers_from : Assoc Bytes → Assoc Bytes → Assoc Bytes
  saved_headers_from acc [] = acc
  saved_headers_from acc ((key, value) ∷ rest) =
      saved_headers_from
        (if equal (host.to_lower key) (codes "x-mock-id") then acc else insert key value acc) rest

-- `clock n` is the time since the start when line `n` is read, `elapsed` the time at the end.
module _ {F : Type 0} (host : Host F) (scan_hex : Bytes → Option ℤ) (clock : ℕ → F) (elapsed : F)
    (disk : Disk) (proxy : ProxyHandler) (network : Network) where
  -- the body of a stream through the relay
  unfoldable pub relay_body : Upstream → Bytes → RelayState F
  unfolding relay_chunks relay_lines scan_lines
  relay_body response body =
      if is_chunked response
      then relay_chunks host clock relay_start (chunks_of host scan_hex body).chunks
      else relay_lines host clock relay_start (scan_lines body)

  -- A negative size of a chunk is a panic, and nothing is recorded.
  unfoldable pub recorded_stream :
      RequestData F → Upstream → Bytes → Option (Result (Bytes × Bytes))
  unfolding relay_body saved_headers_from record_sse_pair
  recorded_stream request response body =
      if is_chunked response && is_panicked (chunks_of host scan_hex body).stop
      then none
      else some (
          record_sse_pair host disk proxy.base_dir request (network.released_status response)
            (relay_body response body).events elapsed (saved_headers_from host [] response.headers))

  unfoldable pub handle_sse_streaming : RequestData F → Connection → Handled F
  unfolding recorded_stream stream_headers
  handle_sse_streaming request not_connected = bad_gateway (codes "Failed to connect to upstream")
  handle_sse_streaming request not_written =
      bad_gateway (codes "Failed to write request to upstream")
  handle_sse_streaming request not_flushed =
      bad_gateway (codes "Failed to flush request to upstream")
  handle_sse_streaming request no_header =
      bad_gateway (codes "Failed to read response headers from upstream")
  handle_sse_streaming request (streams response body) = record {
    calls = set_status_code response.status_code ∷ stream_headers host response.headers;
    sent = some (relay_body response body).sent;
    recorded = recorded_stream request response body;
  }

  unfoldable pub handle_response : RequestData F → Option Upstream → Handled F
  unfolding return_response record_pair
  handle_response request none = record {
    calls = return_response host network.failure none;
    sent = none;
    recorded = none;
  }
  handle_response request (some response) = record {
    calls = return_response host network.failure (some response);
    sent = none;
    recorded = some (record_pair host disk proxy.base_dir request response elapsed);
  }

  -- `id` and `time` are the clock's
  unfoldable pub handle : Bytes → Bytes → Incoming → Handled F
  unfolding prepare_request request_data handle_sse_streaming handle_response target_host
      contains_text
  handle id time incoming =
      let prepared = prepare_request host proxy.target_url incoming in
      let request = request_data host id time incoming in
      if wants_stream incoming
      then handle_sse_streaming request (
          network.connect proxy.certificate (is_https proxy.target_url)
            (target_host proxy.target_url) prepared)
      else handle_response request (network.send proxy.certificate prepared)

  -- the request handler of auto-proxy
  unfoldable pub dispatch : Bytes → Bytes → Incoming → Handled F
  unfolding handle handle_connect
  dispatch id time incoming =
      if equal incoming.method (codes "CONNECT")
      then record { calls = handle_connect; sent = none; recorded = none }
      else handle id time incoming
