-- ===== src/Storage/Types.antt =====
-- pkg/storage/storage.go and pkg/storage/scenario.go: the records of the store. `F` is `float64`,
-- `Op` the filters of jsonfilter-go. The unused field `keyBuf` of the store is left out.
use auto_mock_tools.Prelude.{Bool, List, Option, Bytes, Assoc}
use auto_mock_tools.Json.{Json}
use auto_mock_tools.Host.{ℤ}

pub record SseEvent (F : Type 0) : Type 0 where
  pub payload : Json F
  pub timestamp : F
  pub serialized_data : Bytes

pub record MockResponse (F : Type 0) : Type 0 where
  pub request_id : Bytes
  pub path : Bytes
  pub method : Bytes
  pub method_bytes : Bytes
  pub mock_id : Bytes
  pub content_type : Bytes
  pub status_code : ℤ
  pub headers : Assoc Bytes
  pub header_keys_lower : Assoc Bytes
  pub body : Bytes
  pub original_body : Json F
  pub full_url : Bytes
  pub delay : F
  pub sse_events : List (SseEvent F)
  pub is_sse : Bool

-- a nil `filter` is `none`
pub record MockScenario (F Op : Type 0) : Type 0 where
  pub name : Bytes
  pub path : Bytes
  pub method : Bytes
  pub method_bytes : Bytes
  pub filter : Option Op
  pub response : MockResponse F

pub record MockStorage (F Op : Type 0) : Type 0 where
  pub base_dir : Bytes
  pub responses : Assoc (List (MockResponse F))
  pub responses_by_path_mock_id : Assoc (List (MockResponse F))
  pub cached_stats : Bytes
  pub cached_mock_list : Bytes
  pub replay_timing : Bool
  pub jitter : F
  pub scenarios_enabled : Bool
  pub scenario_by_path : Assoc (List (MockScenario F Op))
  pub scenario_order : List (MockScenario F Op)
