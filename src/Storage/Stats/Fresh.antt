-- ===== src/Storage/Stats/Fresh.antt =====
-- The cached JSON of a store is that of what the store holds.
use auto_mock_tools.Prelude.{◌≡◌, refl, ◌∙◌, Bool-cases, inl, inr, some, Bytes}
use auto_mock_tools.Json.{Json}
use auto_mock_tools.Host.{Host}
use auto_mock_tools.Storage.Types.{MockStorage}
use auto_mock_tools.Storage.Stats.{
  stats_json, get_stats, list_all_mocks, mock_list_json, cache_responses, marshal_or,
}

module _ {F : Type 0} (host : Host F) where
  marshal_or-some :
      (old bytes : Bytes) (j : Json F) → host.marshal j ≡ some bytes → marshal_or host old j ≡ bytes
  marshal_or-some old bytes j h = rw (marshal_or, h) refl

module _ {F Op : Type 0} (host : Host F) where
  -- The cached texts are the JSON of what the store holds, as far as that is marshalled.
  pub record IsFresh (s : MockStorage F Op) : Type 0 where
    pub stats :
        (bytes : Bytes)
        → host.marshal (stats_json host (get_stats host s)) ≡ some bytes
        → s.cached_stats ≡ bytes
    pub listing :
        (bytes : Bytes)
        → host.marshal (mock_list_json host (list_all_mocks host s)) ≡ some bytes
        → s.cached_mock_list ≡ bytes

  cached_stats_lem :
      (s : MockStorage F Op)
      → (cache_responses host s).cached_stats
        ≡ marshal_or host s.cached_stats (stats_json host (get_stats host (cache_responses host s)))
  unfolding cache_responses get_stats
  cached_stats_lem s = elim (Bool-cases s.scenarios_enabled) [
    | inl enabled ↦ rw enabled refl
    | inr disabled ↦ rw disabled refl
  ]

  cached_mock_list_lem :
      (s : MockStorage F Op)
      → (cache_responses host s).cached_mock_list
        ≡ marshal_or host s.cached_mock_list
            (mock_list_json host (list_all_mocks host (cache_responses host s)))
  unfolding cache_responses list_all_mocks
  cached_mock_list_lem s = elim (Bool-cases s.scenarios_enabled) [
    | inl enabled ↦ rw enabled refl
    | inr disabled ↦ rw disabled refl
  ]

  pub cache_responses-IsFresh : (s : MockStorage F Op) → IsFresh (cache_responses host s)
  cache_responses-IsFresh s = record {
    stats = λ bytes h. cached_stats_lem s ∙ marshal_or-some host s.cached_stats bytes _ h;
    listing = λ bytes h. cached_mock_list_lem s ∙ marshal_or-some host s.cached_mock_list bytes _ h;
  }
