-- ===== src/Scenario/Load/Fresh.antt =====
-- The cached JSON of a store after `LoadScenarioConfig`.
use auto_mock_tools.Prelude.{◌≡◌, true, subst, List, [], ◌∷◌, Option, none, some, Bytes, Error}
use auto_mock_tools.Host.{Host, FileSystem}
use auto_mock_tools.Storage.Types.{MockStorage}
use auto_mock_tools.Storage.Stats.Fresh.{IsFresh, cache_responses-IsFresh}
use auto_mock_tools.Scenario.Types.{ScenarioDefinition, Externals}
use auto_mock_tools.Scenario.Load.{enable, load_definitions, load_payload, load_scenario_config}

module _ {F Op : Type 0} (host : Host F) (files : FileSystem) (externals : Externals F Op) where
  -- the store is fresh where there is no error
  abbrev FreshOutcome : Option Error × MockStorage F Op → Type 0
  FreshOutcome (none, s) = IsFresh host s
  FreshOutcome (some e, s) = Unit

  enable-FreshOutcome :
      (o : Option Error × MockStorage F Op) → FreshOutcome (enable host files externals o)
  enable-FreshOutcome (none, s) =
      cache_responses-IsFresh host (record s { scenarios_enabled = true })
  enable-FreshOutcome (some e, s) = tt

  load_definitions-FreshOutcome :
      (path : Bytes) (s : MockStorage F Op) (o : Option (List (ScenarioDefinition F)))
      → FreshOutcome (load_definitions host files externals path s o)
  load_definitions-FreshOutcome path s none = tt
  load_definitions-FreshOutcome path s (some []) = tt
  load_definitions-FreshOutcome path s (some (d ∷ ds)) = enable-FreshOutcome _

  load_payload-FreshOutcome :
      (path : Bytes) (s : MockStorage F Op) (o : Option Bytes)
      → FreshOutcome (load_payload host files externals path s o)
  load_payload-FreshOutcome path s none = tt
  load_payload-FreshOutcome path s (some payload) = load_definitions-FreshOutcome path s _

  pub load_scenario_config-IsFresh :
      (path : Bytes) (s s' : MockStorage F Op)
      → load_scenario_config host files externals path s ≡ (none, s')
      → IsFresh host s'
  unfolding load_scenario_config
  load_scenario_config-IsFresh path s s' e =
      subst FreshOutcome e (load_payload-FreshOutcome path s (files.read_file path))
