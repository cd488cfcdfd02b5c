-- ===== src/Tests/Recording.antt =====
-- Recorded pairs and their replay at concrete inputs.
use auto_mock_tools.Prelude.{
  ℕ, ◌≡◌, refl, sym, ap, true, List, [], ◌∷◌, ◌++◌, Option, none, some, if◌then◌else◌, Bytes, codes,
  equal, cut_at, lookup, insert, Assoc, ok,
}
use auto_mock_tools.Ascii.{to_lower_ascii_simple, trim_space_ascii}
use auto_mock_tools.Json.{Json, str, arr, items}
use auto_mock_tools.Host.{Host, pos}
use auto_mock_tools.Storage.Types.{MockResponse}
use auto_mock_tools.Loader.{parse_mock_record}
use auto_mock_tools.Loader.Fields.{request_path, header_maps, record_content_type}
use auto_mock_tools.Recorder.{
  RequestData, Upstream, Disk, request_fields, response_fields, record_json, save, record_pair,
  record_sse_pair, recorded_headers, body_data, json_or_text, sanitize_content_type,
}
use auto_mock_tools.Recorder.Replay.{RoundTrips}
use auto_mock_tools.Recorder.Timed.{timed_events, events_loaded, record_sse_pair_replays}
use auto_mock_tools.Recorder.Text.{record_pair_replays, record_pair_unzips}
use auto_mock_tools.Tests.World.{host, codec}

-- The world in which one value is marshalled, as the text "{}", and only that text is JSON.
abbrev knows : Json ℕ → Bytes → Option (Json ℕ)
knows j bytes = if equal bytes (codes "{}") then some j else none

abbrev host_of : Json ℕ → Host ℕ
host_of j = record host {
  codec = record codec { marshal_indent = λ _. some (codes "{}"); unmarshal = knows j };
}

host_of-RoundTrips : (j : Json ℕ) → RoundTrips (host_of j) j
unfolding equal
host_of-RoundTrips j bytes marshalled = let e : codes "{}" ≡ bytes = cc in ap (knows j) (sym e)

abbrev pub disk : Disk
disk = record {
  response_time = codes "now";
  file_time = codes "20251122";
  random_hex = codes "5eb1";
  join = λ dir name. dir ++ codes "/" ++ name;
  make_dir_all = λ _. true;
  write_file = λ _ _. true;
}

abbrev pub request : RequestData ℕ
request = record {
  request_id = codes "1";
  timestamp = codes "then";
  method = codes "GET";
  url = codes "http://localhost/users";
  headers = [];
  body = str [];
  mock_id = [];
}

abbrev events : List (Json ℕ × ℕ)
events = (str (codes "hello"), 2) ∷ (str (codes "[DONE]"), 5) ∷ []

abbrev pub stream_headers : Assoc Bytes
stream_headers = (codes "Content-Type", codes "text/event-stream") ∷ []

abbrev stream_record : Json ℕ
stream_record = record_json host (request_fields host request) (
    response_fields host disk request (pos 200) stream_headers (arr (items (timed_events events)))
      3)

record_sse_pair_replays_example :
    (r : MockResponse ℕ) × (parse_mock_record (host_of stream_record) (codes "{}") (codes "default")
      ≡ ok r)
    × (r.is_sse ≡ true)
    × (r.sse_events ≡ events_loaded (host_of stream_record) events)
    × (r.body ≡ codes "data: hello\n\ndata: [DONE]\n\n")
    × (r.delay ≡ 3)
unfolding record_sse_pair save request_path header_maps record_content_type lookup insert equal
    cut_at trim_space_ascii to_lower_ascii_simple
record_sse_pair_replays_example =
    record_sse_pair_replays (host_of stream_record) disk (codes "mocks") request (pos 200) events 3
      stream_headers (codes "default") (codes "mocks/default/text_event-stream_20251122_5eb1.json")
      (codes "{}") (codes "/users") refl (host_of-RoundTrips stream_record) refl refl

-- a text with the given encoding
abbrev peek_of : Bytes → Bytes → Bytes
peek_of encoding name =
    if equal name (codes "Content-Type")
    then codes "text/plain"
    else if equal name (codes "Content-Encoding")
    then encoding
    else []

abbrev upstream : Bytes → Assoc Bytes → Upstream
upstream encoding headers = record {
  status_code = pos 200;
  headers = (codes "Content-Type", codes "text/plain") ∷ headers;
  peek = peek_of encoding;
  body = codes "zip";
}

abbrev pair_record : Assoc Bytes → Json ℕ
pair_record headers = record_json host (request_fields host request) (
    response_fields host disk request (pos 200)
      ((codes "Content-Type", codes "text/plain") ∷ headers) (str (codes "zip")) 3)

record_pair_replays_example :
    (r : MockResponse ℕ) × (parse_mock_record
        (host_of (pair_record []))
        (codes "{}")
        (codes "default")
      ≡ ok r)
    × (r.body ≡ codes "zip")
unfolding record_pair save request_path header_maps record_content_type recorded_headers body_data
    json_or_text sanitize_content_type lookup insert equal cut_at trim_space_ascii
    to_lower_ascii_simple
record_pair_replays_example =
    record_pair_replays (host_of (pair_record [])) disk (codes "mocks") request (upstream [] []) 3
      (codes "default") (codes "mocks/default/text_plain_20251122_5eb1.json") (codes "{}")
      (codes "/users") refl (host_of-RoundTrips (pair_record [])) refl refl refl refl refl refl

abbrev gzip_headers : Assoc Bytes
gzip_headers = (codes "Content-Encoding", codes "gzip") ∷ []

record_pair_unzips_example :
    (r : MockResponse ℕ) × (parse_mock_record
        (host_of (pair_record gzip_headers))
        (codes "{}")
        (codes "default")
      ≡ ok r)
    × (r.body ≡ codes "hello")
unfolding record_pair save request_path header_maps record_content_type recorded_headers body_data
    json_or_text sanitize_content_type lookup insert equal cut_at trim_space_ascii
    to_lower_ascii_simple
record_pair_unzips_example =
    record_pair_unzips (host_of (pair_record gzip_headers)) disk (codes "mocks") request
      (upstream (codes "gzip") gzip_headers) 3 (codes "default")
      (codes "mocks/default/text_plain_20251122_5eb1.json") (codes "{}") (codes "/users")
      (codes "hello") refl (host_of-RoundTrips (pair_record gzip_headers)) refl refl refl refl refl
      refl refl refl
