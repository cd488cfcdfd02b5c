-- ===== src/Storage/Stats.antt =====
-- pkg/storage/storage.go: statistics, listings, and their cached JSON.
pub mod Listing
pub mod Fresh
use auto_mock_tools.Prelude.{
  ℕ, zero, ◌+◌, Bool, true, List, [], ◌∷◌, ◌++◌, map, Option, none, some, if◌then◌else◌, Bytes,
  codes, is_empty, length, Assoc, insert,
}
use auto_mock_tools.Json.{Json, num, str, arr, obj, items, fields}
use auto_mock_tools.Host.{Host, ℤ, pos}
use auto_mock_tools.Storage.Types.{MockResponse, MockScenario, MockStorage}

-- The two sets are maps to `true`.
pub record Stats : Type 0 where
  pub total_responses : ℕ
  pub path_set : Assoc Bool
  pub mock_id_set : Assoc Bool
  pub paths : List Bytes

abbrev pub no_stats : Stats
no_stats = record { total_responses = 0; path_set = []; mock_id_set = []; paths = [] }

abbrev pub keys_of : {V : Type 0} → Assoc V → List Bytes
keys_of = map (λ (k, _). k)

module _ {F : Type 0} where
  -- one round of the loop of `computeStats`: the first response of a bucket stands for it
  unfoldable pub count_bucket : Stats → List (MockResponse F) → Stats
  count_bucket acc [] = acc
  count_bucket acc (r ∷ rs) = record acc {
    total_responses = acc.total_responses + length (r ∷ rs);
    path_set = insert r.path true acc.path_set;
    mock_id_set =
        if is_empty r.mock_id then acc.mock_id_set else insert r.mock_id true acc.mock_id_set;
  }

  unfoldable pub count_buckets : Stats → Assoc (List (MockResponse F)) → Stats
  unfolding count_bucket
  count_buckets acc [] = acc
  count_buckets acc ((_, rs) ∷ m) = count_buckets (count_bucket acc rs) m

  unfoldable pub concat_buckets :
      List (MockResponse F) → Assoc (List (MockResponse F)) → List (MockResponse F)
  concat_buckets all [] = all
  concat_buckets all ((_, rs) ∷ m) = concat_buckets (all ++ rs) m

module _ {F Op : Type 0} where
  unfoldable pub count_scenarios : Stats → List (MockScenario F Op) → Stats
  count_scenarios acc [] = acc
  count_scenarios acc (sc ∷ rest) =
      count_scenarios
        (record acc {
          path_set = insert sc.path true acc.path_set;
          mock_id_set = insert sc.name true acc.mock_id_set;
        })
        rest

module _ {F Op : Type 0} (host : Host F) where
  unfoldable pub compute_stats : MockStorage F Op → Stats
  unfolding count_buckets
  compute_stats s =
      let counted = count_buckets no_stats (host.visit _ s.responses) in
      record counted { paths = keys_of (host.visit _ counted.path_set) }

  unfoldable pub compute_scenario_stats : MockStorage F Op → Stats
  unfolding count_scenarios
  compute_scenario_stats s =
      let total = length s.scenario_order in
      let counted =
        count_scenarios (record no_stats { total_responses = total }) s.scenario_order in
      record counted { paths = keys_of (host.visit _ counted.path_set) }

  unfoldable pub get_stats : MockStorage F Op → Stats
  unfolding compute_stats compute_scenario_stats
  get_stats s = if s.scenarios_enabled then compute_scenario_stats s else compute_stats s

  unfoldable pub list_all_mocks : MockStorage F Op → List (MockResponse F)
  unfolding concat_buckets
  list_all_mocks s =
      if s.scenarios_enabled
      then map (λ (sc : MockScenario F Op). sc.response) s.scenario_order
      else concat_buckets [] (host.visit _ s.responses)

module _ {F : Type 0} (host : Host F) where
  abbrev json_nat : ℕ → Json F
  json_nat n = num (host.of_int (pos n))

  unfoldable pub stats_json : Stats → Json F
  stats_json s = obj (
      fields (
        (codes "total_responses", json_nat s.total_responses)
        ∷ (codes "unique_paths", json_nat (length s.path_set))
        ∷ (codes "unique_mock_ids", json_nat (length s.mock_id_set))
        ∷ (codes "paths", arr (items (map str s.paths)))
        ∷ []))

  unfoldable pub mock_json : MockResponse F → Json F
  mock_json m = obj (
      fields (
        (codes "request_id", str m.request_id)
        ∷ (codes "path", str m.path)
        ∷ (codes "method", str m.method)
        ∷ (codes "mock_id", str m.mock_id)
        ∷ (codes "content_type", str m.content_type)
        ∷ (codes "status_code", num (host.of_int m.status_code))
        ∷ (codes "full_url", str m.full_url)
        ∷ []))

  unfoldable pub mock_list_json : List (MockResponse F) → Json F
  unfolding mock_json
  mock_list_json ms = obj (
      fields (
        (codes "mocks", arr (items (map mock_json ms)))
        ∷ (codes "total", json_nat (length ms))
        ∷ []))

  -- a failed `json.Marshal` leaves the cache as it was
  abbrev pub marshal_or : Bytes → Json F → Bytes
  marshal_or old j = elim (host.marshal j) [ none ↦ old | some bytes ↦ bytes ]

module _ {F Op : Type 0} (host : Host F) where
  -- `listMocks` and `listScenarioMocks`
  unfoldable pub list_mocks : MockStorage F Op → Json F
  unfolding concat_buckets mock_list_json
  list_mocks s = mock_list_json host (concat_buckets [] (host.visit _ s.responses))

  unfoldable pub list_scenario_mocks : MockStorage F Op → Json F
  unfolding mock_list_json
  list_scenario_mocks s =
      mock_list_json host (map (λ (sc : MockScenario F Op). sc.response) s.scenario_order)

  unfoldable pub cache_responses : MockStorage F Op → MockStorage F Op
  unfolding compute_stats compute_scenario_stats stats_json list_mocks list_scenario_mocks
  cache_responses s =
      if s.scenarios_enabled
      then record s {
        cached_stats =
            marshal_or host s.cached_stats (stats_json host (compute_scenario_stats host s));
        cached_mock_list = marshal_or host s.cached_mock_list (list_scenario_mocks s);
      }
      else record s {
        cached_stats = marshal_or host s.cached_stats (stats_json host (compute_stats host s));
        cached_mock_list = marshal_or host s.cached_mock_list (list_mocks s);
      }

module _ {F Op : Type 0} where
  -- `GetStatsJSON` and `GetMockListJSON`
  abbrev pub get_stats_json : MockStorage F Op → Bytes
  get_stats_json s = s.cached_stats

  abbrev pub get_mock_list_json : MockStorage F Op → Bytes
  get_mock_list_json s = s.cached_mock_list
