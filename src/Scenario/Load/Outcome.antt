-- ===== src/Scenario/Load/Outcome.antt =====
-- The outcomes of `LoadScenarioConfig`.
use auto_mock_tools.Prelude.{◌≡◌, ◌≢◌, refl, true, List, [], ◌∷◌, Option, none, some, Bytes, Error}
use auto_mock_tools.Host.{Host, FileSystem}
use auto_mock_tools.Storage.Types.{MockScenario, MockStorage}
use auto_mock_tools.Storage.Stats.{cache_responses}
use auto_mock_tools.Scenario.Types.{ScenarioDefinition, Externals}
use auto_mock_tools.Scenario.Match.Order.{Schedules}
use auto_mock_tools.Scenario.Load.{
  clear_scenarios, enable, load_definitions, load_payload, load_scenario_config,
}
use auto_mock_tools.Scenario.Load.Added.{
  ReadAs, SameMocks, Added, SameMocks-refl, add_definitions-Added,
}

module _ {F Op : Type 0} (host : Host F) (files : FileSystem) (externals : Externals F Op) where
  -- What a call of `LoadScenarioConfig` returns and leaves behind. Without an error the definitions
  -- of the file, at least one, are all read, in order; with one, scenarios are as enabled as before.
  abbrev pub ConfigOutcome : Bytes → MockStorage F Op → Option Error × MockStorage F Op → Type 0
  ConfigOutcome config_path s (none, s') =
      (payload : Bytes) × (ds : List (ScenarioDefinition F)) × (scs : List (MockScenario F Op))
      × (files.read_file config_path ≡ some payload)
      × (externals.parse_scenarios payload ≡ some ds)
      × (ds ≢ [])
      × ReadAs host files externals (externals.dir config_path) 0 ds scs
      × Schedules scs s'
      × (s'.scenarios_enabled ≡ true)
      × SameMocks host files externals s s'
  ConfigOutcome config_path s (some e, s') =
      (s'.scenarios_enabled ≡ s.scenarios_enabled) × SameMocks host files externals s s'

  cache_responses-Schedules :
      (scs : List (MockScenario F Op)) (s : MockStorage F Op)
      → Schedules scs s
      → Schedules scs (cache_responses host (record s { scenarios_enabled = true }))
  unfolding cache_responses
  cache_responses-Schedules scs s h = record { order = h.order; by_path = h.by_path }

  cache_responses-SameMocks :
      (s s' : MockStorage F Op)
      → SameMocks host files externals (clear_scenarios host files externals s) s'
      → SameMocks host files externals s
          (cache_responses host (record s' { scenarios_enabled = true }))
  unfolding cache_responses
  cache_responses-SameMocks s s' h = record {
    responses = h.responses;
    responses_by_path_mock_id = h.responses_by_path_mock_id;
    replay_timing = h.replay_timing;
    jitter = h.jitter;
  }

  cache_responses-enabled :
      (s : MockStorage F Op)
      → (cache_responses host (record s { scenarios_enabled = true })).scenarios_enabled ≡ true
  unfolding cache_responses
  cache_responses-enabled s = refl

  enable-ConfigOutcome :
      (config_path payload : Bytes) (s : MockStorage F Op) (d : ScenarioDefinition F)
      (ds : List (ScenarioDefinition F)) (added : Option Error × MockStorage F Op)
      → files.read_file config_path ≡ some payload
      → externals.parse_scenarios payload ≡ some (d ∷ ds)
      → Added host files externals
          (externals.dir config_path)
          0
          (d ∷ ds)
          []
          (clear_scenarios host files externals s)
          added
      → ConfigOutcome config_path s (enable host files externals added)
  enable-ConfigOutcome config_path payload s d ds (none, s') r p (scs, read, scheduled, same) = (
    payload,
    d ∷ ds,
    scs,
    r,
    p,
    (λ e. cc),
    read,
    cache_responses-Schedules scs s' scheduled,
    cache_responses-enabled s',
    cache_responses-SameMocks s s' same,
  )
  enable-ConfigOutcome config_path payload s d ds (some e, s') r p (enabled, same) = (
    enabled,
    record {
      responses = same.responses;
      responses_by_path_mock_id = same.responses_by_path_mock_id;
      replay_timing = same.replay_timing;
      jitter = same.jitter;
    },
  )

  load_definitions-ConfigOutcome :
      (config_path payload : Bytes) (s : MockStorage F Op)
      (parsed : Option (List (ScenarioDefinition F)))
      → files.read_file config_path ≡ some payload
      → externals.parse_scenarios payload ≡ parsed
      → ConfigOutcome config_path s (load_definitions host files externals config_path s parsed)
  load_definitions-ConfigOutcome config_path payload s none r p =
      (refl, SameMocks-refl host files externals s)
  load_definitions-ConfigOutcome config_path payload s (some []) r p =
      (refl, SameMocks-refl host files externals s)
  load_definitions-ConfigOutcome config_path payload s (some (d ∷ ds)) r p =
      enable-ConfigOutcome config_path payload s d ds _ r p (
        add_definitions-Added host files externals (externals.dir config_path) (d ∷ ds) 0 []
          (clear_scenarios host files externals s) (record { order = refl; by_path = refl }))

  load_payload-ConfigOutcome :
      (config_path : Bytes) (s : MockStorage F Op) (contents : Option Bytes)
      → files.read_file config_path ≡ contents
      → ConfigOutcome config_path s (load_payload host files externals config_path s contents)
  load_payload-ConfigOutcome config_path s none r = (refl, SameMocks-refl host files externals s)
  load_payload-ConfigOutcome config_path s (some payload) r =
      load_definitions-ConfigOutcome config_path payload s _ r refl

  load_scenario_config_lem :
      (config_path : Bytes) (s : MockStorage F Op)
      → load_scenario_config host files externals config_path s
        ≡ load_payload host files externals config_path s (files.read_file config_path)
  unfolding load_scenario_config
  load_scenario_config_lem config_path s = refl

  -- Where LoadScenarioConfig returns no error, scenarios are enabled and are those of the file,
  -- in order, each read from its definition; with an error they are as enabled as before. In both
  -- cases the mocks of the directory and the timing settings are unchanged.
  pub load_scenario_config-ConfigOutcome :
      (config_path : Bytes) (s : MockStorage F Op)
      → ConfigOutcome config_path s (load_scenario_config host files externals config_path s)
  load_scenario_config-ConfigOutcome config_path s =
      rw load_scenario_config_lem (load_payload-ConfigOutcome config_path s _ refl)
