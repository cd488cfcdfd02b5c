-- ===== src/Scenario/Load.antt =====
-- pkg/storage/scenario.go: `LoadScenarioConfig`.
pub mod Added
pub mod Outcome
pub mod Delay
pub mod WellFormed
pub mod Fresh
use auto_mock_tools.Prelude.{
  ℕ, ◌+◌, Bool, true, ◌&&◌, not, List, [], ◌∷◌, ◌++◌, map, Option, none, some, if◌then◌else◌, Bytes,
  codes, is_empty, Assoc, Error, missing_name, missing_path, missing_file, invalid_filter,
  rejected_filter, load_response, read_failed, invalid_yaml, no_scenarios, Result, ok, err,
  or_error, ◌>>=◌,
}
use auto_mock_tools.Json.{Json, obj, fields}
use auto_mock_tools.Host.{Host, FileSystem}
use auto_mock_tools.Storage.Types.{SseEvent, MockResponse, MockScenario, MockStorage}
use auto_mock_tools.Storage.Index.{append_at}
use auto_mock_tools.Storage.Stats.{cache_responses}
use auto_mock_tools.Loader.{load_response_from_file}
use auto_mock_tools.Scenario.Types.{ScenarioDefinition, Externals}

abbrev pub has_events : {F : Type 0} → List (SseEvent F) → Bool
has_events [] = not true
has_events (e ∷ es) = true

-- the text, or the error if it is empty
abbrev pub required : Error → Bytes → Result Bytes
required e [] = err e
required e (c ∷ cs) = ok (c ∷ cs)

-- `fmt.Errorf("scenario %s: load response: %w", name, err)`
abbrev pub in_scenario {ℓ} : {A : Type ℓ} → Bytes → Result A → Result A
in_scenario name (ok a) = ok a
in_scenario name (err e) = err (load_response name e)

module _ {F : Type 0} (host : Host F) where
  unfoldable pub rescale : F → SseEvent F → SseEvent F
  rescale scale e = record e { timestamp = host.mul e.timestamp scale }

  -- the delay override: the timestamps of an event stream keep their proportions
  unfoldable pub override_delay : Option F → MockResponse F → MockResponse F
  unfolding rescale
  override_delay none r = r
  override_delay (some new_delay) r =
      let scale = host.div new_delay r.delay in
      record r {
        sse_events =
            if r.is_sse && has_events r.sse_events && host.lt host.zero r.delay
            then map (rescale scale) r.sse_events
            else r.sse_events;
        delay = new_delay;
      }

  unfoldable pub scenario_method : Bytes → Bytes → Bytes
  scenario_method defined recorded =
      let method = host.to_upper (host.trim_space defined) in
      let method = if is_empty method then host.to_upper recorded else method in
      if is_empty method then codes "GET" else method

module _ {F Op : Type 0} (externals : Externals F Op) where
  valid_filter : Bytes → Op → Result (Option Op)
  valid_filter name operator =
      if externals.is_valid operator then ok (some operator) else err (rejected_filter name)

  -- no filter for an empty body
  unfoldable pub scenario_filter : Bytes → Assoc (Json F) → Result (Option Op)
  unfolding valid_filter
  scenario_filter name [] = ok none
  scenario_filter name (entry ∷ entries) = do
    let root = obj (fields ((codes "jsonFilter", obj (fields (entry ∷ entries))) ∷ []))
    operator ← or_error (invalid_filter name) (externals.from_map root)
    valid_filter name operator

module _ {F Op : Type 0} (host : Host F) (files : FileSystem) (externals : Externals F Op) where
  resolve : Bytes → Bytes → Bytes
  resolve base_dir file = if externals.is_abs file then file else externals.join_path base_dir file

  -- one round of the loop, up to the two appends; `idx` counts from 0
  unfoldable pub scenario_of : Bytes → ℕ → ScenarioDefinition F → Result (MockScenario F Op)
  unfolding resolve load_response_from_file override_delay scenario_method scenario_filter
  scenario_of base_dir idx definition = do
    name ← required (missing_name (idx + 1)) (host.trim_space definition.name)
    path ← required (missing_path name) (host.trim_space definition.path)
    file ← required (missing_file name) (host.trim_space definition.response_file)
    loaded ← in_scenario name (load_response_from_file host files (resolve base_dir file) name)
    let response = override_delay host definition.response_delay loaded
    let method = scenario_method host definition.method response.method
    operator ← scenario_filter externals name definition.filter_body
    ok (record {
      name = name;
      path = path;
      method = method;
      method_bytes = method;
      filter = operator;
      response = record response {
        path = path;
        full_url = path;
        method = method;
        method_bytes = method;
        mock_id = name;
      };
    })

  unfoldable pub add_scenario : MockStorage F Op → MockScenario F Op → MockStorage F Op
  add_scenario s scenario = record s {
    scenario_by_path = append_at scenario.path scenario s.scenario_by_path;
    scenario_order = s.scenario_order ++ scenario ∷ [];
  }

  -- An error leaves the store with the scenarios that were added before it.
  unfoldable pub add_definitions :
      Bytes → ℕ → MockStorage F Op → List (ScenarioDefinition F) → Option Error × MockStorage F Op
  unfolding add_scenario
  add_definitions base_dir idx s [] = (none, s)
  add_definitions base_dir idx s (definition ∷ rest) = elim (scenario_of base_dir idx definition) [
    | ok scenario ↦ add_definitions base_dir (idx + 1) (add_scenario s scenario) rest
    | err e ↦ (some e, s)
  ]

  abbrev enable : Option Error × MockStorage F Op → Option Error × MockStorage F Op
  enable (some e, s) = (some e, s)
  enable (none, s) = (none, cache_responses host (record s { scenarios_enabled = true }))

  abbrev clear_scenarios : MockStorage F Op → MockStorage F Op
  clear_scenarios s = record s { scenario_by_path = []; scenario_order = [] }

  abbrev load_definitions :
      Bytes
      → MockStorage F Op
      → Option (List (ScenarioDefinition F))
      → Option Error × MockStorage F Op
  load_definitions config_path s none = (some invalid_yaml, s)
  load_definitions config_path s (some []) = (some no_scenarios, s)
  load_definitions config_path s (some (d ∷ ds)) =
      enable (add_definitions (externals.dir config_path) 0 (clear_scenarios s) (d ∷ ds))

  abbrev load_payload : Bytes → MockStorage F Op → Option Bytes → Option Error × MockStorage F Op
  load_payload config_path s none = (some read_failed, s)
  load_payload config_path s (some payload) =
      load_definitions config_path s (externals.parse_scenarios payload)

  unfoldable pub load_scenario_config : Bytes → MockStorage F Op → Option Error × MockStorage F Op
  unfolding add_definitions cache_responses
  load_scenario_config config_path s = load_payload config_path s (files.read_file config_path)
