-- ===== src/Tests/Serving.antt =====
-- Servers that are started on the files of the examples.
use auto_mock_tools.Prelude.{
  ℕ, ◌≡◌, refl, true, [], ◌∷◌, none, some, Bytes, codes, equal, cut_at, lookup, insert, has_byte,
  Result, ok, err, All,
}
use auto_mock_tools.Ascii.{trim_space_ascii, equal_fold_bytes, to_lower_ascii_simple}
use auto_mock_tools.Host.{Host}
use auto_mock_tools.Storage.Find.{normalize}
use auto_mock_tools.Storage.Find.Catalog.{Readable}
use auto_mock_tools.Storage.Load.{is_mock_file}
use auto_mock_tools.Storage.Load.Contents.{scan_base}
use auto_mock_tools.Handlers.{first_accept, served, json_endpoint}
use auto_mock_tools.Handlers.Calls.{Request}
use auto_mock_tools.Handlers.Routing.{IsClean}
use auto_mock_tools.Loader.{load_response_from_file, parse_mock_record, build_response}
use auto_mock_tools.Loader.Fields.{
  request_path, header_maps, record_content_type, record_method, record_mock_id, record_status_code,
  record_delay, header_keys_lower,
}
use auto_mock_tools.Loader.Body.{decoded_body, body_bytes, recorded_events}
use auto_mock_tools.Scenario.Load.{scenario_of}
use auto_mock_tools.Server.{Flags, Server, start, serve}
use auto_mock_tools.Server.Outcome.{StartOutcome, start-StartOutcome}
use auto_mock_tools.Server.Answers.{scheduled, serve-IsClean}
use auto_mock_tools.Server.Lookup.{serve_by_mock_id, serve_by_scenario}
use auto_mock_tools.Server.Endpoints.{serve_endpoints}
use auto_mock_tools.Tests.World.{host, codec, files, externals, login}
use auto_mock_tools.Tests.Stores.{request_for, users-NoPipe}
use auto_mock_tools.Tests.Recording.{disk}
use auto_mock_tools.Tests.Loading.{parsed_users}

abbrev flags : Bytes → Flags ℕ
flags mock_config = record {
  mock_dir = codes "mocks";
  mock_config = mock_config;
  log_dir = codes "mock_log";
  replay_timing = true;
  jitter = 1;
}

start-StartOutcome_example :
    StartOutcome host files externals disk
      (flags (codes "scenarios.yaml"))
      (start host files externals disk (flags (codes "scenarios.yaml")))
start-StartOutcome_example =
    start-StartOutcome host files externals disk (flags (codes "scenarios.yaml"))

abbrev pub value_of : Server ℕ Bytes → Result (Server ℕ Bytes) → Server ℕ Bytes
value_of s (ok s') = s'
value_of s (err e) = s

abbrev pub no_server : Server ℕ Bytes
no_server = record { store = auto_mock_tools.Tests.Stores.store; logger = none }

-- the server without a scenario file, and with one
abbrev by_mock_id : Server ℕ Bytes
by_mock_id = value_of no_server (start host files externals disk (flags []))

by_mock_id-start : start host files externals disk (flags []) ≡ ok by_mock_id
unfolding start equal
by_mock_id-start = refl

abbrev by_scenario : Server ℕ Bytes
by_scenario = value_of no_server (start host files externals disk (flags (codes "scenarios.yaml")))

abbrev login_request : Request
login_request = request_for (codes "/login") (codes "POST") []

abbrev get_users : Request
get_users = request_for (codes "/users") (codes "GET") (codes "application/json")

serve-IsClean_example : IsClean host externals (serve host externals by_mock_id 0 get_users)
unfolding start equal
serve-IsClean_example =
    serve-IsClean host files externals disk (flags []) by_mock_id 0 get_users refl

mocks-Readable : All Readable (scan_base host files (codes "mocks"))
unfolding is_mock_file load_response_from_file parse_mock_record build_response equal lookup insert
    cut_at trim_space_ascii to_lower_ascii_simple request_path header_maps record_content_type
    record_method record_mock_id record_status_code record_delay header_keys_lower decoded_body
    body_bytes recorded_events has_byte
mocks-Readable = (record { of_path = refl; of_mock_id = refl }, tt)

serve_by_mock_id_example :
    serve host externals by_mock_id 0 get_users
    ≡ served host externals by_mock_id.store true 0 (some (parsed_users))
unfolding start served first_accept normalize equal_fold_bytes is_mock_file load_response_from_file
    parse_mock_record build_response equal lookup insert cut_at trim_space_ascii
    to_lower_ascii_simple request_path header_maps record_content_type record_method record_mock_id
    record_status_code record_delay header_keys_lower decoded_body body_bytes recorded_events
serve_by_mock_id_example =
    serve_by_mock_id host files externals disk (flags []) by_mock_id refl 0 get_users refl
      mocks-Readable users-NoPipe refl refl

-- the scenarios of the second server
serve_by_scenario_example :
    serve host externals by_scenario 0 login_request
    ≡ served host externals by_scenario.store true 0
        (scheduled host externals login_request by_scenario.store.scenario_order)
unfolding start equal scenario_of trim_space_ascii lookup insert cut_at to_lower_ascii_simple
    request_path build_response body_bytes decoded_body record_content_type header_maps
serve_by_scenario_example =
    serve_by_scenario host files externals disk (flags (codes "scenarios.yaml")) by_scenario refl
      by_scenario.store.scenario_order 0 login_request (λ e. cc)
      (record {
        payload = codes "yaml";
        definitions = login ∷ [];
        read = refl;
        parsed = refl;
        some_definition = λ e. cc;
        read_as = (refl, tt);
      })
      refl

-- a world in which all values are marshalled
abbrev loud : Host ℕ
loud = record host { codec = record codec { marshal = λ _. some (codes "{}") } }

abbrev loud_server : Server ℕ Bytes
loud_server = value_of no_server (start loud files externals disk (flags []))

abbrev get_stats_request : Request
get_stats_request = request_for (codes "/__mock__/stats") (codes "GET") []

serve_endpoints_example :
    serve loud externals loud_server 0 get_stats_request ≡ json_endpoint loud externals (codes "{}")
unfolding start equal
serve_endpoints_example =
    serve_endpoints loud files externals disk (flags []) loud_server refl 0 get_stats_request
      (codes "{}") (codes "{}") (λ _. refl) refl refl refl
