-- ===== src/Lib.antt =====
-- Auto Mock Tools: the mock server and the recording proxy of this repository as definitions, and
-- what is proved of them.
--
-- The program has two parts. auto-proxy records the traffic to an upstream server as JSON files,
-- one for each request and response, in a folder for each mock id. auto-mock-server loads such a
-- directory, or a YAML file of scenarios that name recorded files, and answers requests from it.
-- This library models both from the flags of their command lines to the calls that answer a
-- request, so that what passes through the proxy can be followed to the file, and from there to
-- its replay.
--
-- - Prelude: shared names; lists, bytes (Go strings and byte slices), association lists for Go
--   maps, and Result for functions that return an error.
-- - Ascii: trimSpaceASCII, toLowerASCIISimple and equalFoldBytes (pkg/storage/storage.go; the
--   first again in pkg/handlers/handlers.go).
-- - Json: the values that encoding/json decodes, and the type assertions on them.
-- - Host: the parameters, that is Go's runtime and libraries: float64 operations, the codecs, the
--   order in which a range loop visits a map, the lengths that make allows, and the file system.
-- - Storage (pkg/storage/storage.go): Types the records, Keys the index keys, Index the two maps,
--   Find the lookups, Stats the statistics and listings with their cached JSON, Load the walk over
--   the mock directory. A method that changes the store returns the new store.
-- - Loader (pkg/storage/record_loader.go): Fields and Body hold the steps of parseMockRecord,
--   Lowered is about its map of lower-case keys.
-- - Scenario (pkg/storage/scenario.go): Types the YAML file as decoded and the packages it needs,
--   Load LoadScenarioConfig, Match MatchScenarioResponse.
-- - Handlers (pkg/handlers/handlers.go): Calls a request and the calls on fasthttp's context; the
--   module itself MockHandler, Router and the endpoints; Stream the SSE stream writer; Pool the
--   pool of stream writers, with requests that run at once as a step relation.
-- - NotFound (pkg/storage/logger.go): LogNotFound as the file and the bytes it writes; Name is
--   about the names of these files, Replay about what the record loader makes of them.
-- - Server (cmd/auto-mock-server/main.go): start goes from the flags to the store and the logger,
--   serve is the handler of the running server; Outcome says what a start gives, Lookup, Answers,
--   Endpoints and Once what the server then answers; Loaded, Recorded and Streamed follow a file
--   that the proxy wrote to the answer that is given from it.
-- - Recorder (pkg/proxy/recorder.go): the module itself RecordPair and RecordSSEPair as the file
--   and the bytes they write; Replay, Timed and Text what the record loader makes of them, Name the
--   names of the files.
-- - Proxy (pkg/proxy/handler.go): Forward the request and the response of Handle, Chunks the loop
--   that reads a chunked body, Scan the lines of one that is not, Relay the line machine of
--   handleSSEStreaming as a step on its state, Handle the composition of these with the recorder
--   and the handler of cmd/auto-proxy/main.go, Start its flags; Replay, Handle.Replay and
--   Handle.Chunked the way from a relayed stream to the loader, Handle.Settled that way taken
--   twice, Started and Handle.Files the way from the flags to the place of a file.
-- - TestServers (testutils/servers): the handlers of the upstream servers that the proxy is tried
--   against; Captured follows their streams through the proxy.
--
-- Every operation keeps its Go name in snake_case: FindResponseBytes is find_response_bytes, the
-- loop body of loadResponses is load_file inside load_files inside load_dirs, and MockHandler is
-- mock_handler, a list of calls in the order in which the handler makes them. The result of
-- rand.Float64 is an argument, and so are the clock, the random source and the disk. The abstract
-- view of a store is the list of responses in load order: Indexes in Storage.Find.Catalog says
-- that the maps of a store index such a list.
--
-- Loops are over lists, and the index loops of trimSpaceASCII count down the rounds that their
-- bounds leave. Two loops are on fuel: read_chunks, whose fuel is one more than the length of the
-- body, where each round reads at least a line end; and the decimal digits in TestServers, whose
-- fuel is one more than the number, where each round takes a digit.
--
-- Requests that run at once share the store, which no request changes, and the pool of stream
-- writers. In Handlers.Pool the writers stand in a heap, a goroutine moves by the steps of
-- MockHandler and StreamTo that read or write its writer, and the pool gives any of its writers
-- or a new one; a state is reached by any interleaving of such steps.
--
-- A chunk that is whole in the body is taken to be no longer than make allows.
--
-- Not modelled: sending responses; the pool of key buffers, whose key is copied before the buffer
-- goes back; the third-party packages fasthttp, yaml.v3 and jsonfilter-go, which are parameters;
-- in the proxy the HTTP client and the connection of a stream, which are the parameter Network, the
-- TLS settings but for the client certificate, and the log lines; parsing flags, printing,
-- listening and the shutdown on a signal in the two programs (cmd); and certificates and listening
-- in the test servers (testutils).
pub mod Prelude
pub mod Ascii
pub mod Json
pub mod Host
pub mod Storage
pub mod Loader
pub mod Scenario
pub mod Handlers
pub mod Recorder
pub mod NotFound
pub mod Server
pub mod Proxy
pub mod TestServers
mod Tests
