-- ===== src/Scenario/Load/Added.antt =====
-- What the loop of `LoadScenarioConfig` adds to the store.
use mathlib.Core.List.{append-nil, append_assoc}
use auto_mock_tools.Prelude.{
  ℕ, ◌+◌, ◌≡◌, refl, sym, ap, ◌∙◌, List, [], ◌∷◌, ◌++◌, Option, none, some, Bytes, Error, ok, err,
  Result-cases, inl, inr,
}
use auto_mock_tools.Host.{Host, FileSystem}
use auto_mock_tools.Storage.Types.{MockScenario, MockStorage}
use auto_mock_tools.Storage.Index.{append_at}
use auto_mock_tools.Storage.Index.Buckets.{index-append}
use auto_mock_tools.Scenario.Types.{ScenarioDefinition, Externals}
use auto_mock_tools.Scenario.Match.Order.{Schedules}
use auto_mock_tools.Scenario.Load.{scenario_of, add_scenario, add_definitions}

module _ {F Op : Type 0} (host : Host F) (files : FileSystem) (externals : Externals F Op) where
  -- Definition by definition, from position `idx`, the scenarios are those that the loop reads.
  abbrev pub ReadAs : Bytes → ℕ → List (ScenarioDefinition F) → List (MockScenario F Op) → Type 0
  ReadAs base_dir idx [] [] = Unit
  ReadAs base_dir idx (d ∷ ds) (sc ∷ scs) =
      (scenario_of host files externals base_dir idx d ≡ ok sc) × ReadAs base_dir (idx + 1) ds scs
  ReadAs base_dir idx _ _ = ⊥

  -- the fields that loading scenarios leaves alone
  pub record SameMocks (s s' : MockStorage F Op) : Type 0 where
    pub responses : s'.responses ≡ s.responses
    pub responses_by_path_mock_id : s'.responses_by_path_mock_id ≡ s.responses_by_path_mock_id
    pub replay_timing : s'.replay_timing ≡ s.replay_timing
    pub jitter : s'.jitter ≡ s.jitter

  abbrev pub Added :
      Bytes
      → ℕ
      → List (ScenarioDefinition F)
      → List (MockScenario F Op)
      → MockStorage F Op
      → Option Error × MockStorage F Op
      → Type 0
  Added base_dir idx ds before s (none, s') =
      (scs : List (MockScenario F Op)) × ReadAs base_dir idx ds scs
      × Schedules (before ++ scs) s'
      × SameMocks s s'
  Added base_dir idx ds before s (some e, s') =
      (s'.scenarios_enabled ≡ s.scenarios_enabled) × SameMocks s s'

  add_scenario-Schedules :
      (before : List (MockScenario F Op)) (s : MockStorage F Op) (sc : MockScenario F Op)
      → Schedules before s
      → Schedules (before ++ sc ∷ []) (add_scenario host files externals s sc)
  unfolding add_scenario
  add_scenario-Schedules before s sc h = record {
    order = ap (λ all. all ++ sc ∷ []) h.order;
    by_path =
        ap (append_at sc.path sc) h.by_path
        ∙ sym (index-append (λ (x : MockScenario F Op). x.path) [] before (sc ∷ []));
  }

  pub SameMocks-refl : (s : MockStorage F Op) → SameMocks s s
  SameMocks-refl s = record {
    responses = refl;
    responses_by_path_mock_id = refl;
    replay_timing = refl;
    jitter = refl;
  }

  SameMocks-add :
      (s s' : MockStorage F Op) (sc : MockScenario F Op)
      → SameMocks (add_scenario host files externals s sc) s'
      → SameMocks s s'
  unfolding add_scenario
  SameMocks-add s s' sc h = record {
    responses = h.responses;
    responses_by_path_mock_id = h.responses_by_path_mock_id;
    replay_timing = h.replay_timing;
    jitter = h.jitter;
  }

  module _ (base_dir : Bytes) (idx : ℕ) (s : MockStorage F Op) where
    add_definitions_nil : add_definitions host files externals base_dir idx s [] ≡ (none, s)
    unfolding add_definitions
    add_definitions_nil = refl

    module _ (d : ScenarioDefinition F) (ds : List (ScenarioDefinition F)) where
      add_definitions-ok :
          (sc : MockScenario F Op)
          → scenario_of host files externals base_dir idx d ≡ ok sc
          → add_definitions host files externals base_dir idx s (d ∷ ds)
            ≡ add_definitions host files externals base_dir
                (idx + 1)
                (add_scenario host files externals s sc)
                ds
      unfolding add_definitions
      add_definitions-ok sc read = rw (read, add_definitions) refl

      add_definitions-err :
          (e : Error)
          → scenario_of host files externals base_dir idx d ≡ err e
          → add_definitions host files externals base_dir idx s (d ∷ ds) ≡ (some e, s)
      unfolding add_definitions
      add_definitions-err e failed = rw (failed, add_definitions) refl

  Added-cons :
      (base_dir : Bytes) (idx : ℕ) (d : ScenarioDefinition F) (ds : List (ScenarioDefinition F))
      (before : List (MockScenario F Op)) (s : MockStorage F Op) (sc : MockScenario F Op)
      (result : Option Error × MockStorage F Op)
      → scenario_of host files externals base_dir idx d ≡ ok sc
      → Added base_dir
          (idx + 1)
          ds
          (before ++ sc ∷ [])
          (add_scenario host files externals s sc)
          result
      → Added base_dir idx (d ∷ ds) before s result
  unfolding add_scenario
  Added-cons base_dir idx d ds before s sc (none, s') read (scs, rest, scheduled, same) =
      (sc ∷ scs, (read, rest), rw append_assoc at scheduled, SameMocks-add s s' sc same)
  Added-cons base_dir idx d ds before s sc (some e, s') read (enabled, same) =
      (enabled, SameMocks-add s s' sc same)

  pub add_definitions-Added :
      (base_dir : Bytes) (ds : List (ScenarioDefinition F)) (idx : ℕ)
      (before : List (MockScenario F Op)) (s : MockStorage F Op)
      → Schedules before s
      → Added base_dir idx ds before s (add_definitions host files externals base_dir idx s ds)
  add_definitions-Added base_dir [] idx before s h =
      rw add_definitions_nil ([], tt, rw append-nil h, SameMocks-refl s)
  add_definitions-Added base_dir (d ∷ ds) idx before s h =
      elim (Result-cases (scenario_of host files externals base_dir idx d)) [
        | inl (sc, read) ↦ rw (add_definitions-ok base_dir idx s d ds sc read) (
            Added-cons base_dir idx d ds before s sc _ read (
              add_definitions-Added base_dir ds (idx + 1) (before ++ sc ∷ [])
                (add_scenario host files externals s sc) (add_scenario-Schedules before s sc h)))
        | inr (e, failed) ↦
            rw (add_definitions-err base_dir idx s d ds e failed) (refl, SameMocks-refl s)
      ]
