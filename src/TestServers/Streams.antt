-- ===== src/TestServers/Streams.antt =====
-- What the test servers send, an event at a time.
use auto_mock_tools.Prelude.{◌≡◌, refl, true, List, [], ◌∷◌, map, Bytes}
use auto_mock_tools.Loader.Body.{data_event}
use auto_mock_tools.TestServers.{
  test_event, client_event, client_dn, sse_handler, fasthttp_sse_handler, https_sse_handler,
  mtls_sse_handler, test_events_from, listed_events_from, client_events_from, flushed, flushed_from,
  decimal, TestServer, net_http, fasthttp, fasthttp_tls, handler_of,
}

-- the events of the servers without client certificates
abbrev pub test_payloads : List Bytes
test_payloads = test_event 0 ∷ test_event 1 ∷ test_event 2 ∷ []

abbrev pub client_payloads : Bytes → List Bytes
client_payloads client = client_event client 0 ∷ client_event client 1 ∷ client_event client 2 ∷ []

flushed-sse_handler : flushed (sse_handler true) ≡ map data_event test_payloads
unfolding flushed_from sse_handler test_events_from
flushed-sse_handler = refl

flushed-fasthttp_sse_handler : flushed fasthttp_sse_handler ≡ map data_event test_payloads
unfolding flushed_from fasthttp_sse_handler test_events_from
flushed-fasthttp_sse_handler = refl

flushed-https_sse_handler : flushed https_sse_handler ≡ map data_event test_payloads
unfolding flushed_from https_sse_handler listed_events_from test_event decimal
flushed-https_sse_handler = refl

flushed-mtls_sse_handler :
    (subjects : List Bytes)
    → flushed (mtls_sse_handler subjects) ≡ map data_event (client_payloads (client_dn [] subjects))
unfolding flushed_from mtls_sse_handler client_events_from
flushed-mtls_sse_handler subjects = refl

pub flushed-handler_of :
    (server : TestServer) → flushed (handler_of server) ≡ map data_event test_payloads
unfolding handler_of
flushed-handler_of net_http = flushed-sse_handler
flushed-handler_of fasthttp = flushed-fasthttp_sse_handler
flushed-handler_of fasthttp_tls = flushed-https_sse_handler
