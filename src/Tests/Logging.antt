-- ===== src/Tests/Logging.antt =====
-- Logged 404 answers at concrete inputs.
use auto_mock_tools.Prelude.{
  ℕ, ◌≡◌, refl, sym, ap, false, [], ◌∷◌, Option, none, some, if◌then◌else◌, Bytes, codes, equal,
  has_byte, cut_at, lookup, insert, ok,
}
use auto_mock_tools.Ascii.{to_lower_ascii_simple, trim_space_ascii}
use auto_mock_tools.Json.{Json, str, obj, fields}
use auto_mock_tools.Host.{Host, pos}
use auto_mock_tools.Storage.Types.{MockResponse}
use auto_mock_tools.Loader.{parse_mock_record}
use auto_mock_tools.Loader.Fields.{request_path, header_maps, record_content_type}
use auto_mock_tools.Recorder.Replay.{RoundTrips}
use auto_mock_tools.NotFound.{
  Exchange, logged_record, logged_body, logged_request, sanitize_content_type, logged_type,
  file_name, log_not_found,
}
use auto_mock_tools.NotFound.Replay.{Repeats, log_not_found_replays}
use auto_mock_tools.NotFound.Name.{log_not_found_stays}
use auto_mock_tools.Tests.World.{host, codec}
use auto_mock_tools.Tests.Recording.{disk}

-- The world in which two values are marshalled: the record as "{}", and the error as "{e}".
abbrev error : Json ℕ
error = obj (fields ((codes "error", str (codes "No mock found")) ∷ []))

abbrev marshal_error : Json ℕ → Option Bytes
marshal_error (obj fs) = some (codes "{e}")
marshal_error _ = none

abbrev host_of : Json ℕ → Host ℕ
host_of j = record host {
  codec = record codec {
    marshal_indent = λ _. some (codes "{}");
    marshal = marshal_error;
    unmarshal = λ bytes.
        if equal bytes (codes "{}")
        then some j
        else if equal bytes (codes "{e}")
        then some error
        else none;
  };
}

abbrev exchange : Exchange
exchange = record {
  method = codes "POST";
  request_uri = codes "/users";
  request_headers = (codes "Accept", codes "../x;q=1, */*") ∷ [];
  post_body = codes "hi";
  accept = codes "../x;q=1, */*";
  status_code = pos 404;
  response_headers = (codes "Content-Type", codes "application/json") ∷ [];
  response_body = codes "{e}";
}

abbrev logged : Json ℕ
logged = logged_record (host_of (str [])) disk (codes "1") (codes "then") exchange

host_of-RoundTrips :
    RoundTrips
      (host_of logged)
      (logged_record (host_of logged) disk (codes "1") (codes "then") exchange)
unfolding equal logged_request logged_body insert
host_of-RoundTrips bytes marshalled =
    let e : codes "{}" ≡ bytes = cc in ap (host_of logged).codec.unmarshal (sym e)

log_not_found_replays_example :
    (r : MockResponse ℕ) × (parse_mock_record (host_of logged) (codes "{}") (codes "default")
      ≡ ok r)
    × Repeats (host_of logged) exchange (codes "/users") r
unfolding log_not_found file_name sanitize_content_type logged_type logged_request logged_body
    request_path header_maps record_content_type lookup insert equal cut_at trim_space_ascii
    to_lower_ascii_simple
log_not_found_replays_example =
    log_not_found_replays (host_of logged) disk (codes "mock_log") (codes "1") (codes "then")
      exchange (codes "default") (codes "mock_log/___x_20251122_5eb1.json") (codes "{}")
      (codes "/users") refl host_of-RoundTrips refl refl refl
      (record { value = error; read = refl; written = refl; no_text = refl }) refl refl

log_not_found_stays_example :
    (name : Bytes) × (codes "mock_log/___x_20251122_5eb1.json" ≡ disk.join (codes "mock_log") name)
    × (has_byte b'/' name ≡ false)
unfolding log_not_found file_name sanitize_content_type logged_type logged_request logged_body
    lookup insert equal cut_at trim_space_ascii has_byte
log_not_found_stays_example =
    log_not_found_stays (host_of logged) disk (codes "mock_log") (codes "1") (codes "then")
      (codes "mock_log/___x_20251122_5eb1.json") (codes "{}") exchange refl refl refl
