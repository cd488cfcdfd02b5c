-- ===== src/Tests/Loading.antt =====
-- Loading a mock directory, a record and a scenario file, at concrete inputs.
use auto_mock_tools.Prelude.{
  ℕ, ◌≡◌, ◌↔◌, refl, true, false, [], ◌∷◌, some, Bytes, codes, equal, cut_at, lookup, insert,
}
use auto_mock_tools.Ascii.{trim_space_ascii, equal_fold_bytes, to_lower_ascii_simple, is_space}
use auto_mock_tools.Ascii.Fold.{equal_fold_bytes_iff}
use auto_mock_tools.Ascii.Trim.{trim_space_ascii_strip}
use auto_mock_tools.Json.{str}
use auto_mock_tools.Host.{pos}
use auto_mock_tools.Storage.Types.{MockResponse}
use auto_mock_tools.Storage.Load.{new_mock_storage}
use auto_mock_tools.Storage.Load.Scan.{LoadOutcome, new_mock_storage-LoadOutcome}
use auto_mock_tools.Loader.{build_response, parse_mock_record}
use auto_mock_tools.Loader.Fields.{
  request_path, header_maps, record_content_type, record_method, record_mock_id, record_status_code,
  record_delay, header_keys_lower,
}
use auto_mock_tools.Loader.Body.{decoded_body, body_bytes, recorded_events}
use auto_mock_tools.Loader.WellFormed.{IsWellFormed, parse_mock_record-IsWellFormed}
use auto_mock_tools.Scenario.Load.{override_delay, load_scenario_config}
use auto_mock_tools.Scenario.Load.Delay.{Overridden, override_delay-Overridden}
use auto_mock_tools.Scenario.Load.Outcome.{ConfigOutcome, load_scenario_config-ConfigOutcome}
use auto_mock_tools.Tests.World.{host, files, externals}
use auto_mock_tools.Tests.Stores.{users_get, store}

new_mock_storage-LoadOutcome_example :
    LoadOutcome Bytes host files (codes "mocks") (new_mock_storage host files (codes "mocks"))
new_mock_storage-LoadOutcome_example = new_mock_storage-LoadOutcome Bytes host files (codes "mocks")

-- what the loader makes of the record of the examples
abbrev pub parsed_users : MockResponse ℕ
parsed_users = record {
  request_id = [];
  path = codes "/users";
  method = codes "GET";
  method_bytes = codes "GET";
  mock_id = codes "default";
  content_type = codes "application/json";
  status_code = pos 200;
  headers =
      (codes "Content-Type", codes "application/json; charset=utf-8")
      ∷ (codes "X-Mock-Id", codes "default")
      ∷ [];
  header_keys_lower =
      (codes "content-type", codes "Content-Type") ∷ (codes "x-mock-id", codes "X-Mock-Id") ∷ [];
  body = codes "ann";
  original_body = str (codes "ann");
  full_url = codes "http://localhost/users?page=1";
  delay = 2;
  sse_events = [];
  is_sse = false;
}

parse_mock_record-IsWellFormed_example : IsWellFormed parsed_users
unfolding parse_mock_record build_response equal lookup insert cut_at trim_space_ascii
    to_lower_ascii_simple request_path header_maps record_content_type record_method record_mock_id
    record_status_code record_delay header_keys_lower decoded_body body_bytes recorded_events
parse_mock_record-IsWellFormed_example =
    parse_mock_record-IsWellFormed host (codes "{users}") (codes "default") parsed_users refl

load_scenario_config-ConfigOutcome_example :
    ConfigOutcome host files externals
      (codes "scenarios.yaml")
      store
      (load_scenario_config host files externals (codes "scenarios.yaml") store)
load_scenario_config-ConfigOutcome_example =
    load_scenario_config-ConfigOutcome host files externals (codes "scenarios.yaml") store

abbrev streamed : MockResponse ℕ
streamed = record users_get {
  is_sse = true;
  sse_events =
      record { payload = str (codes "a"); timestamp = 1; serialized_data = codes "a" } ∷ [];
}

override_delay-Overridden_example :
    Overridden host 4 streamed (override_delay host (some 4) streamed)
override_delay-Overridden_example = override_delay-Overridden host 4 streamed

equal_fold_bytes_iff_example :
    (equal_fold_bytes (codes "Get") (codes "GET") ≡ true)
    ↔ (to_lower_ascii_simple (codes "Get") ≡ to_lower_ascii_simple (codes "GET"))
equal_fold_bytes_iff_example = equal_fold_bytes_iff (codes "Get") (codes "GET")

trim_space_ascii_strip_example : trim_space_ascii (codes " a b\n") ≡ codes "a b"
unfolding is_space
trim_space_ascii_strip_example = trim_space_ascii_strip (codes " a b\n")
