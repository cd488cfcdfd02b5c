-- ===== src/Scenario/Match.antt =====
-- pkg/storage/scenario.go: `HasScenarios` and `MatchScenarioResponse`.
pub mod Order
use auto_mock_tools.Prelude.{
  Bool, true, not, ◌&&◌, List, [], ◌∷◌, Option, none, some, if◌then◌else◌, Bytes, is_empty, find,
}
use auto_mock_tools.Ascii.{equal_fold_bytes}
use auto_mock_tools.Storage.Types.{MockResponse, MockScenario, MockStorage}
use auto_mock_tools.Storage.Index.{slice_at}
use auto_mock_tools.Scenario.Types.{Externals}

module _ {F Op : Type 0} where
  abbrev pub has_scenarios : MockStorage F Op → Bool
  has_scenarios s = s.scenarios_enabled

  abbrev pub response_of : Option (MockScenario F Op) → Option (MockResponse F)
  response_of none = none
  response_of (some scenario) = some scenario.response

  -- the two tests that `continue`
  unfoldable pub skips_method : Bytes → MockScenario F Op → Bool
  skips_method method scenario =
      not (is_empty scenario.method_bytes)
      && not (is_empty method)
      && not (equal_fold_bytes scenario.method_bytes method)

module _ {F Op : Type 0} (externals : Externals F Op) where
  unfoldable pub skips_body : Bytes → MockScenario F Op → Bool
  skips_body body scenario = elim scenario.filter [
    | none ↦ not true
    | some operator ↦ not (externals.evaluate operator body)
  ]

  unfoldable pub first_match : Bytes → Bytes → List (MockScenario F Op) → Option (MockResponse F)
  unfolding skips_method skips_body
  first_match method body [] = none
  first_match method body (scenario ∷ rest) =
      let next = first_match method body rest in
      if skips_method method scenario
      then next
      else if skips_body body scenario
      then next
      else some scenario.response

  unfoldable pub match_scenario_response :
      MockStorage F Op → Bytes → Bytes → Bytes → Option (MockResponse F)
  unfolding first_match
  match_scenario_response s path method body =
      if not s.scenarios_enabled
      then none
      else first_match method body (slice_at path s.scenario_by_path)
