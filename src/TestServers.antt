-- ===== src/TestServers.antt =====
-- testutils/servers: the handlers of the upstream servers that the proxy is tried against, as what
-- they do to the response, in order.
pub mod Streams
pub mod Captured
use Prim.Native.Nat.{◌*◌, ◌/◌}
use auto_mock_tools.Prelude.{
  ℕ, zero, suc, ◌+◌, ◌%◌, Bool, true, List, [], ◌∷◌, ◌++◌, ltb, if◌then◌else◌, Bytes, codes, length,
}
use auto_mock_tools.Loader.Body.{data_event}

-- `sleep` is in milliseconds.
pub data ServerStep : Type 0 where
  delete_header : Bytes → ServerStep
  set_header : Bytes → Bytes → ServerStep
  set_content_type : Bytes → ServerStep
  set_status_code : ℕ → ServerStep
  write : Bytes → ServerStep
  flush : ServerStep
  sleep : ℕ → ServerStep

-- `%d` of a number that is not negative, on fuel; `decimal` gives enough of it
decimal_from : ℕ → ℕ → Bytes → Bytes
decimal_from zero n digits = digits
decimal_from (suc fuel) n digits =
    let digits' = (b'0' + n % 10) ∷ digits in
    let rest = decimal_from fuel (n / 10) digits' in if ltb n 10 then digits' else rest

unfoldable pub decimal : ℕ → Bytes
unfolding decimal_from
decimal n = decimal_from (suc n) n []

-- `{"event": "message_%d", "value": %d}`
unfoldable pub test_event : ℕ → Bytes
unfolding decimal
test_event i =
    codes "{\"event\": \"message_"
    ++ decimal i
    ++ codes "\", \"value\": "
    ++ decimal (i * 10)
    ++ codes "}"

abbrev pub stream_type : Bytes
stream_type = codes "text/event-stream; charset=utf-8"

abbrev stream_steps : List ServerStep → List ServerStep
stream_steps steps =
    set_header (codes "Content-Type") stream_type
    ∷ set_header (codes "Cache-Control") (codes "no-cache")
    ∷ set_header (codes "Connection") (codes "keep-alive")
    ∷ steps

-- The loop of both `sseHandler`s, `left` rounds before its end. `flushes` is whether the writer is a
-- `http.Flusher`.
unfoldable pub test_events_from : Bool → ℕ → ℕ → List ServerStep
unfolding test_event data_event
test_events_from flushes zero i = []
test_events_from flushes (suc left) i =
    write (data_event (test_event i)) ∷ (if flushes then flush ∷ [] else [])
    ++ sleep 100 ∷ test_events_from flushes left (i + 1)

-- `sseHandler` of sse_test_server
unfoldable pub sse_handler : Bool → List ServerStep
unfolding test_events_from
sse_handler flushes =
    delete_header (codes "Content-Type")
    ∷ stream_steps
        (set_header (codes "X-Accel-Buffering") (codes "no") ∷ test_events_from flushes 3 0)

-- `sseHandler` of sse_test_server_fasthttp
unfoldable pub fasthttp_sse_handler : List ServerStep
unfolding test_events_from
fasthttp_sse_handler = stream_steps (set_status_code 200 ∷ test_events_from true 3 0)

-- the pause before each event but the first
abbrev pause : ℕ → List ServerStep → List ServerStep
pause i steps = if ltb 0 i then sleep 100 ∷ steps else steps

-- the loop of sse_test_server_https
unfoldable pub listed_events_from : ℕ → List Bytes → List ServerStep
unfolding data_event
listed_events_from i [] = []
listed_events_from i (event ∷ events) =
    pause i (write (data_event event) ∷ flush ∷ listed_events_from (i + 1) events)

unfoldable pub https_sse_handler : List ServerStep
unfolding listed_events_from
https_sse_handler = stream_steps (
    listed_events_from 0 (
      codes "{\"event\": \"message_0\", \"value\": 0}"
      ∷ codes "{\"event\": \"message_1\", \"value\": 10}"
      ∷ codes "{\"event\": \"message_2\", \"value\": 20}"
      ∷ []))

-- the subject of the first certificate of the connection
unfoldable pub client_dn : Bytes → List Bytes → Bytes
client_dn missing [] = missing
client_dn missing (subject ∷ subjects) = subject

-- `{"event": "message_%d", "client": "%s"}`
unfoldable pub client_event : Bytes → ℕ → Bytes
unfolding decimal
client_event client i =
    codes "{\"event\": \"message_"
    ++ decimal i
    ++ codes "\", \"client\": \""
    ++ client
    ++ codes "\"}"

-- the loop of mtls_sse_server, `left` rounds before its end
unfoldable pub client_events_from : Bytes → ℕ → ℕ → List ServerStep
unfolding client_event data_event
client_events_from client zero i = []
client_events_from client (suc left) i =
    pause i
      (write (data_event (client_event client i)) ∷ flush ∷ client_events_from client left (i + 1))

unfoldable pub mtls_sse_handler : List Bytes → List ServerStep
unfolding client_events_from client_dn
mtls_sse_handler subjects = stream_steps (client_events_from (client_dn [] subjects) 3 0)

-- the handler of mtls_test_server
unfoldable pub mtls_handler : List Bytes → Bytes → List ServerStep
unfolding client_dn
mtls_handler subjects path =
    set_content_type (codes "application/json")
    ∷ write (
        codes "{\"message\": \"mTLS success\", \"client\": \""
        ++ client_dn (codes "No client certificate") subjects
        ++ codes "\", \"path\": \""
        ++ path
        ++ codes "\"}")
    ∷ []

-- The bytes between two flushes, which reach the client at once; what is written behind the last
-- flush goes out at the end.
unfoldable pub flushed_from : Bytes → List ServerStep → List Bytes
flushed_from buffered [] = if ltb 0 (length buffered) then buffered ∷ [] else []
flushed_from buffered (write bytes ∷ steps) = flushed_from (buffered ++ bytes) steps
flushed_from buffered (flush ∷ steps) = buffered ∷ flushed_from [] steps
flushed_from buffered (delete_header key ∷ steps) = flushed_from buffered steps
flushed_from buffered (set_header key value ∷ steps) = flushed_from buffered steps
flushed_from buffered (set_content_type content_type ∷ steps) = flushed_from buffered steps
flushed_from buffered (set_status_code status ∷ steps) = flushed_from buffered steps
flushed_from buffered (sleep time ∷ steps) = flushed_from buffered steps

abbrev pub flushed : List ServerStep → List Bytes
unfolding flushed_from
flushed steps = flushed_from [] steps

-- the servers that ask for no certificate
pub data TestServer : Type 0 where
  net_http : TestServer
  fasthttp : TestServer
  fasthttp_tls : TestServer

unfoldable pub handler_of : TestServer → List ServerStep
unfolding sse_handler fasthttp_sse_handler https_sse_handler
handler_of net_http = sse_handler true
handler_of fasthttp = fasthttp_sse_handler
handler_of fasthttp_tls = https_sse_handler
