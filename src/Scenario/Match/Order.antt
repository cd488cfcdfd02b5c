-- ===== src/Scenario/Match/Order.antt =====
-- The matched scenario is the first one in declaration order.
use auto_mock_tools.Prelude.{
  ◌≡◌, refl, sym, ap, ◌∙◌, Bool, true, not, ◌&&◌, List, [], ◌∷◌, arith, Bytes, equal, find,
  find-keep,
}
use auto_mock_tools.Storage.Types.{MockScenario, MockStorage}
use auto_mock_tools.Storage.Index.{slice_at}
use auto_mock_tools.Storage.Index.Buckets.{bucket, index, slice_at-index}
use auto_mock_tools.Scenario.Types.{Externals}
use auto_mock_tools.Scenario.Match.{
  response_of, skips_method, skips_body, first_match, match_scenario_response,
}

module _ {F Op : Type 0} where
  -- The store holds these scenarios, in this order, and its map indexes them by path.
  pub record Schedules (scenarios : List (MockScenario F Op)) (s : MockStorage F Op) : Type 0 where
    pub order : s.scenario_order ≡ scenarios
    pub by_path : s.scenario_by_path ≡ index (λ (sc : MockScenario F Op). sc.path) scenarios

module _ {F Op : Type 0} (externals : Externals F Op) where
  -- The scenario is for any method or this one, and has no filter or one that matches the body.
  abbrev pub answers : Bytes → Bytes → MockScenario F Op → Bool
  answers method body sc = not (skips_method method sc) && not (skips_body externals body sc)

  first_match-eq-find :
      (method body : Bytes) (scs : List (MockScenario F Op))
      → first_match externals method body scs ≡ response_of (find (answers method body) scs)
  unfolding first_match
  first_match-eq-find method body [] = refl
  first_match-eq-find method body (sc ∷ scs) = ground (arith, first_match-eq-find method body scs)

  enabled_match :
      (s : MockStorage F Op) (path method body : Bytes)
      → s.scenarios_enabled ≡ true
      → match_scenario_response externals s path method body
        ≡ first_match externals method body (slice_at path s.scenario_by_path)
  unfolding match_scenario_response
  enabled_match s path method body enabled = rw enabled refl

  -- With scenarios enabled, MatchScenarioResponse answers with the response of the first scenario
  -- in declaration order that has the path and whose method and filter let the request through.
  pub match_scenario_response_refines :
      (scs : List (MockScenario F Op)) (s : MockStorage F Op) (path method body : Bytes)
      → Schedules scs s
      → s.scenarios_enabled ≡ true
      → match_scenario_response externals s path method body
        ≡ response_of (find (λ sc. equal sc.path path && answers method body sc) s.scenario_order)
  match_scenario_response_refines scs s path method body h enabled =
      let key = λ (sc : MockScenario F Op). sc.path in
      enabled_match s path method body enabled
      ∙ ap (λ m. first_match externals method body (slice_at path m)) h.by_path
      ∙ ap (first_match externals method body) (slice_at-index key path scs)
      ∙ first_match-eq-find method body (bucket key path scs)
      ∙ ap response_of
          (find-keep (λ (sc : MockScenario F Op). equal sc.path path) (answers method body) scs)
      ∙ ap (λ all. response_of (find (λ sc. equal sc.path path && answers method body sc) all))
          (sym h.order)
