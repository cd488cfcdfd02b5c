-- ===== src/Tests/Stores.antt =====
-- Stores for the examples: two responses at one path, and two scenarios at one path.
use auto_mock_tools.Prelude.{
  ℕ, refl, true, false, List, [], ◌∷◌, Option, none, some, Bytes, codes, equal, if◌then◌else◌,
  has_byte, All,
}
use auto_mock_tools.Json.{str}
use auto_mock_tools.Host.{pos}
use auto_mock_tools.Storage.Types.{MockResponse, MockScenario, MockStorage}
use auto_mock_tools.Storage.Index.{response_key, path_mock_id_key}
use auto_mock_tools.Storage.Index.Buckets.{index}
use auto_mock_tools.Storage.Find.Catalog.{NoPipe, Readable, Indexes}
use auto_mock_tools.Scenario.Match.Order.{Schedules}
use auto_mock_tools.Handlers.Calls.{Request}

abbrev pub users_get : MockResponse ℕ
users_get = record {
  request_id = codes "1";
  path = codes "/users";
  method = codes "GET";
  method_bytes = codes "GET";
  mock_id = codes "default";
  content_type = codes "application/json";
  status_code = pos 200;
  headers = (codes "Etag", codes "7") ∷ [];
  header_keys_lower = (codes "etag", codes "Etag") ∷ [];
  body = codes "ann";
  original_body = str (codes "ann");
  full_url = codes "http://localhost/users";
  delay = 2;
  sse_events = [];
  is_sse = false;
}

abbrev pub users_post : MockResponse ℕ
users_post = record users_get {
  method = codes "POST";
  method_bytes = codes "POST";
  body = codes "added";
}

abbrev pub loaded : List (MockResponse ℕ)
loaded = users_get ∷ users_post ∷ []

abbrev pub store_with : List (MockResponse ℕ) → MockStorage ℕ Bytes
store_with rs = record {
  base_dir = codes "mocks";
  responses = index response_key rs;
  responses_by_path_mock_id = index path_mock_id_key rs;
  cached_stats = [];
  cached_mock_list = [];
  replay_timing = false;
  jitter = 0;
  scenarios_enabled = false;
  scenario_by_path = [];
  scenario_order = [];
}

abbrev pub store : MockStorage ℕ Bytes
store = store_with loaded

pub store-Indexes : Indexes loaded store
store-Indexes = record { by_key = refl; by_path = refl }

pub loaded-Readable : All Readable loaded
unfolding has_byte
loaded-Readable = (
  record { of_path = refl; of_mock_id = refl },
  (record { of_path = refl; of_mock_id = refl }, tt),
)

pub users-NoPipe : NoPipe (codes "/users") (codes "default")
unfolding has_byte
users-NoPipe = record { of_path = refl; of_mock_id = refl }

abbrev pub scenario : Bytes → Option Bytes → MockResponse ℕ → MockScenario ℕ Bytes
scenario name filter response = record {
  name = name;
  path = codes "/login";
  method = codes "POST";
  method_bytes = codes "POST";
  filter = filter;
  response = response;
}

abbrev pub scenarios : List (MockScenario ℕ Bytes)
scenarios =
    scenario (codes "admin") (some (codes "root")) users_post
    ∷ scenario (codes "anyone") none users_get
    ∷ []

abbrev pub scenario_store : MockStorage ℕ Bytes
scenario_store = record store {
  scenarios_enabled = true;
  scenario_by_path = index (λ (sc : MockScenario ℕ Bytes). sc.path) scenarios;
  scenario_order = scenarios;
}

pub scenario_store-Schedules : Schedules scenarios scenario_store
scenario_store-Schedules = record { order = refl; by_path = refl }

abbrev accept_only : Bytes → Bytes → Bytes
accept_only accept name = if equal name (codes "Accept") then accept else []

-- a request with no mock id, and the given Accept header
abbrev pub request_for : Bytes → Bytes → Bytes → Request
request_for path method accept = record {
  path = path;
  method = method;
  post_body = codes "root";
  peek = accept_only accept;
}
