-- ===== src/Proxy/Handle/Files.antt =====
-- Where the proxy writes its files.
use auto_mock_tools.Prelude.{
  ◌≡◌, false, ◌&&◌, inl, inr, Bool-cases, [], Option, none, some, some_injective, Bytes, codes,
  equal, has_byte, Result, ok, ℕ,
}
use auto_mock_tools.Host.{Host, ℤ}
use auto_mock_tools.Recorder.{RequestData, Upstream, Disk}
use auto_mock_tools.Recorder.Name.{IsEntryOf, record_pair-IsEntryOf, record_sse_pair-IsEntryOf}
use auto_mock_tools.Proxy.Forward.{Incoming, request_data}
use auto_mock_tools.Proxy.Chunks.{chunks_of}
use auto_mock_tools.Proxy.Handle.{
  ProxyHandler, Network, Connection, not_connected, not_written, not_flushed, no_header, streams,
  wants_stream, is_chunked, is_panicked, saved_headers_from, relay_body, recorded_stream,
  handle_sse_streaming, handle_response, handle, dispatch,
}
use auto_mock_tools.Proxy.Handle.Answers.{handle_lem}

module _ {F : Type 0} (host : Host F) (scan_hex : Bytes → Option ℤ) (clock : ℕ → F) (elapsed : F)
    (disk : Disk) (proxy : ProxyHandler) (network : Network)
    (time : has_byte b'/' disk.file_time ≡ false) (hex : has_byte b'/' disk.random_hex ≡ false)
    (file bytes : Bytes) where
  -- If the result is this file, it is an entry of the folder of the mock id.
  abbrev Enters : Bytes → Option (Result (Bytes × Bytes)) → Type 0
  Enters mock_id o = o ≡ some (ok (file, bytes)) → IsEntryOf disk proxy.base_dir mock_id file

  recorded_stream-Enters :
      (request : RequestData F) (response : Upstream) (body : Bytes)
      → Enters request.mock_id
          (recorded_stream host scan_hex clock elapsed disk proxy network request response body)
  unfolding recorded_stream
  recorded_stream-Enters request response body h =
      elim (Bool-cases (is_chunked response && is_panicked (chunks_of host scan_hex body).stop)) [
        | inl panicked ↦ let e : none ≡ some (ok (file, bytes)) = rw panicked at h in cc
        | inr relayed ↦
            record_sse_pair-IsEntryOf host disk proxy.base_dir time hex request file bytes
              (network.released_status response)
              (relay_body host scan_hex clock elapsed disk proxy network response body).events
              elapsed (saved_headers_from host [] response.headers)
              (some_injective (rw relayed at h))
      ]

  handle_sse_streaming-Enters :
      (request : RequestData F) (connection : Connection)
      → Enters request.mock_id
          (handle_sse_streaming host scan_hex clock elapsed disk proxy network request
            connection).recorded
  unfolding handle_sse_streaming
  handle_sse_streaming-Enters request not_connected h = cc
  handle_sse_streaming-Enters request not_written h = cc
  handle_sse_streaming-Enters request not_flushed h = cc
  handle_sse_streaming-Enters request no_header h = cc
  handle_sse_streaming-Enters request (streams response body) h =
      recorded_stream-Enters request response body h

  handle_response-Enters :
      (request : RequestData F) (o : Option Upstream)
      → Enters request.mock_id
          (handle_response host scan_hex clock elapsed disk proxy network request o).recorded
  unfolding handle_response
  handle_response-Enters request none h = cc
  handle_response-Enters request (some response) h =
      record_pair-IsEntryOf host disk proxy.base_dir time hex request file bytes response elapsed
        (some_injective h)

  module _ (id now : Bytes) (incoming : Incoming) where
    handle-Enters :
        Enters incoming.mock_id
          (handle host scan_hex clock elapsed disk proxy network id now incoming).recorded
    unfolding request_data
    handle-Enters h = elim (Bool-cases (wants_stream incoming)) [
      | inl wants ↦
          handle_sse_streaming-Enters (request_data host id now incoming) _
            (rw (handle_lem, wants) at h)
      | inr plain ↦
          handle_response-Enters (request_data host id now incoming) _ (rw (handle_lem, plain) at h)
    ]

    -- Each recorded file is a direct entry of the folder of its mock id.
    pub dispatch_stays :
        (dispatch host scan_hex clock elapsed disk proxy network id now incoming).recorded
          ≡ some (ok (file, bytes))
        → IsEntryOf disk proxy.base_dir incoming.mock_id file
    unfolding dispatch
    dispatch_stays h = elim (Bool-cases (equal incoming.method (codes "CONNECT"))) [
      | inl connect ↦ let e : none ≡ some (ok (file, bytes)) = rw connect at h in cc
      | inr other ↦ handle-Enters (rw other at h)
    ]
