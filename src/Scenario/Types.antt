-- ===== src/Scenario/Types.antt =====
-- pkg/storage/scenario.go: the scenario file as gopkg.in/yaml.v3 decodes it, and what the program
-- takes from yaml.v3, jsonfilter-go and path/filepath.
use auto_mock_tools.Prelude.{Bool, List, Option, Bytes, Assoc}
use auto_mock_tools.Json.{Json}

pub record ScenarioDefinition (F : Type 0) : Type 0 where
  pub name : Bytes
  pub method : Bytes
  pub path : Bytes
  pub filter_body : Assoc (Json F)
  pub response_file : Bytes
  pub response_delay : Option F

-- `parse_scenarios` is `yaml.Unmarshal`, `from_map` is the filter parser on the value under
-- "jsonFilter", `is_valid` is `Validate().Valid`, and `evaluate` is `Evaluate(body).Match`.
pub record Externals (F Op : Type 0) : Type 0 where
  pub parse_scenarios : Bytes → Option (List (ScenarioDefinition F))
  pub from_map : Json F → Option Op
  pub is_valid : Op → Bool
  pub evaluate : Op → Bytes → Bool
  pub dir : Bytes → Bytes
  pub is_abs : Bytes → Bool
  pub join_path : Bytes → Bytes → Bytes
