-- ===== src/Tests/Starting.antt =====
-- A proxy from its flags to the file that it writes, at concrete flags.
use auto_mock_tools.Prelude.{
  refl, false, [], codes, equal, has_byte, has_prefix, lookup, insert, cut_at,
}
use auto_mock_tools.Ascii.{trim_space_ascii, is_space, to_lower_ascii_simple}
use auto_mock_tools.Recorder.{record_sse_pair, save, split, json_or_text}
use auto_mock_tools.Recorder.Name.{IsEntryOf}
use auto_mock_tools.Proxy.Forward.{request_data}
use auto_mock_tools.Proxy.Scan.{scan_lines, scan_pieces}
use auto_mock_tools.Proxy.Relay.{relay_lines, data_lines_from, timed_event}
use auto_mock_tools.Proxy.Handle.{
  dispatch, handle, handle_sse_streaming, recorded_stream, relay_body, contains_text,
}
use auto_mock_tools.Proxy.Start.{
  ProxyFlags, start_proxy, new_recorder, new_proxy_handler, configure_proxy,
}
use auto_mock_tools.Proxy.Started.{ProxyOutcome, start_proxy-ProxyOutcome, started_proxy_stays}
use auto_mock_tools.Tests.Recording.{disk}
use auto_mock_tools.Tests.Replaying.{kept_host, same_time}
use auto_mock_tools.Tests.Streaming.{no_size, proxy, network, wanting}

abbrev proxy_flags : ProxyFlags
proxy_flags = record {
  log_dir = codes "mocks";
  target = codes "http://upstream";
  client_cert = codes "client.pem";
  client_key = [];
}

start_proxy-ProxyOutcome_example :
    ProxyOutcome (λ _ _. false) disk proxy_flags (start_proxy (λ _ _. false) disk proxy_flags)
start_proxy-ProxyOutcome_example = start_proxy-ProxyOutcome (λ _ _. false) disk proxy_flags

started_proxy_stays_example :
    IsEntryOf disk (codes "mocks") [] (codes "mocks/default/text_event-stream_20251122_5eb1.json")
unfolding start_proxy new_recorder new_proxy_handler configure_proxy has_byte dispatch handle
    request_data contains_text handle_sse_streaming recorded_stream relay_body scan_lines
    scan_pieces record_sse_pair save relay_lines data_lines_from timed_event split json_or_text
    has_prefix lookup insert equal cut_at trim_space_ascii is_space to_lower_ascii_simple
started_proxy_stays_example =
    started_proxy_stays (λ _ _. false) disk proxy_flags kept_host no_size same_time 3 network proxy
      refl (codes "1") (codes "then") (codes "mocks/default/text_event-stream_20251122_5eb1.json")
      (codes "{}") wanting refl refl refl
