-- ===== src/Server/Outcome.antt =====
-- The outcomes of the start of the server.
use auto_mock_tools.Prelude.{
  ◌≡◌, ◌≢◌, ◌⊎◌, refl, ap, ◌∙◌, inl, inr, true, false, List, [], ◌∷◌, Option, none, some, Bytes,
  Error, Result, ok, err, read_failed, ◌>>=◌,
}
use auto_mock_tools.Host.{Host, FileSystem}
use auto_mock_tools.Storage.Types.{MockScenario, MockStorage}
use auto_mock_tools.Storage.Find.Catalog.{Indexes}
use auto_mock_tools.Storage.Load.{new_mock_storage, set_timing_config}
use auto_mock_tools.Storage.Load.Contents.{scan_base}
use auto_mock_tools.Storage.Load.Scan.{LoadOutcome, new_mock_storage-LoadOutcome}
use auto_mock_tools.Scenario.Types.{Externals}
use auto_mock_tools.Scenario.Match.Order.{Schedules}
use auto_mock_tools.Scenario.Load.{load_scenario_config}
use auto_mock_tools.Scenario.Load.Outcome.{ConfigOutcome, load_scenario_config-ConfigOutcome}
use auto_mock_tools.Recorder.{Disk}
use auto_mock_tools.Server.{Flags, Server, router_logger, or_fatal, configure, start}
use auto_mock_tools.Server.Declares.{Declares}

module _ {F Op : Type 0} (host : Host F) (files : FileSystem) (externals : Externals F Op) where
  -- The two modes of a store: by mock id, or by the scenarios of a file.
  abbrev pub Mode : Bytes → MockStorage F Op → Type 0
  Mode [] s = s.scenarios_enabled ≡ false
  Mode (c ∷ path) s =
      (scs : List (MockScenario F Op)) × Declares host files externals (c ∷ path) scs
      × Schedules scs s
      × (s.scenarios_enabled ≡ true)

  pub record Configured (mock_dir mock_config : Bytes) (s : MockStorage F Op) : Type 0 where
    pub indexed : Indexes (scan_base host files mock_dir) s
    pub mode : Mode mock_config s

  -- the outcomes of reading the scenarios
  abbrev ConfigureOutcome : Bytes → Bytes → MockStorage F Op → Result (MockStorage F Op) → Type 0
  ConfigureOutcome mock_dir mock_config s (ok s') = Configured mock_dir mock_config s'
  ConfigureOutcome mock_dir mock_config s (err e) =
      (mock_config ≢ []) × ((load_scenario_config host files externals mock_config s).0 ≡ some e)

  or_fatal-ConfigureOutcome :
      (mock_dir : Bytes) (c : _) (path : Bytes) (s : MockStorage F Op)
      (o : Option Error × MockStorage F Op)
      → Indexes (scan_base host files mock_dir) s
      → load_scenario_config host files externals (c ∷ path) s ≡ o
      → ConfigOutcome host files externals (c ∷ path) s o
      → ConfigureOutcome mock_dir (c ∷ path) s (or_fatal host files externals o)
  or_fatal-ConfigureOutcome mock_dir c path s (none, s') h e
        (payload, ds, scs, read, parsed, ne, declared, scheduled, enabled, same) =
      record {
        indexed = record {
          by_key = same.responses ∙ h.by_key;
          by_path = same.responses_by_path_mock_id ∙ h.by_path;
        };
        mode = (
          scs,
          record {
            payload = payload;
            definitions = ds;
            read = read;
            parsed = parsed;
            some_definition = ne;
            read_as = declared;
          },
          scheduled,
          enabled,
        );
      }
  or_fatal-ConfigureOutcome mock_dir c path s (some x, s') h e kept =
      ((λ nil. cc), ap (λ (t : Option Error × MockStorage F Op). t.0) e)

  configure-ConfigureOutcome :
      (mock_dir mock_config : Bytes) (s : MockStorage F Op)
      → Indexes (scan_base host files mock_dir) s
      → s.scenarios_enabled ≡ false
      → ConfigureOutcome mock_dir mock_config s (configure host files externals mock_config s)
  unfolding configure
  configure-ConfigureOutcome mock_dir [] s h disabled = record { indexed = h; mode = disabled }
  configure-ConfigureOutcome mock_dir (c ∷ path) s h disabled =
      or_fatal-ConfigureOutcome mock_dir c path s _ h refl
        (load_scenario_config-ConfigOutcome host files externals (c ∷ path) s)

  -- A started server has the timing of its flags, the responses of the mock directory, and the
  -- mode of the configuration flag. A start fails where the mock directory is there and cannot be
  -- read, or where LoadScenarioConfig fails.
  pub record Started (disk : Disk) (flags : Flags F) (server : Server F Op) : Type 0 where
    pub configured : Configured flags.mock_dir flags.mock_config server.store
    pub replay_timing : server.store.replay_timing ≡ flags.replay_timing
    pub jitter : server.store.jitter ≡ flags.jitter
    pub logger : server.logger ≡ router_logger disk flags.log_dir

  abbrev pub StartOutcome : Disk → Flags F → Result (Server F Op) → Type 0
  StartOutcome disk flags (ok server) = Started disk flags server
  StartOutcome disk flags (err e) =
      ((files.missing flags.mock_dir ≡ false)
        × (files.read_dir flags.mock_dir ≡ none)
        × (e ≡ read_failed))
      ⊎ ((s : MockStorage F Op) × (new_mock_storage host files flags.mock_dir ≡ ok s)
          × (flags.mock_config ≢ [])
          × ((load_scenario_config host files externals flags.mock_config s).0 ≡ some e))

module _ {F Op : Type 0} (host : Host F) (files : FileSystem) (externals : Externals F Op)
    (disk : Disk) (flags : Flags F) where
  -- the server on a configured store
  abbrev timed : MockStorage F Op → Server F Op
  timed s = record {
    store = set_timing_config s flags.replay_timing flags.jitter;
    logger = router_logger disk flags.log_dir;
  }

  timed-Started :
      (s : MockStorage F Op)
      → Configured host files externals flags.mock_dir flags.mock_config s
      → Started host files externals disk flags (timed s)
  unfolding set_timing_config
  timed-Started s h = record {
    configured = record {
      indexed = record { by_key = h.indexed.by_key; by_path = h.indexed.by_path };
      mode = retimed flags.mock_config h.mode;
    };
    replay_timing = refl;
    jitter = refl;
    logger = refl;
  }
    where
      retimed :
          (config : Bytes)
          → Mode host files externals config s
          → Mode host files externals config (set_timing_config s flags.replay_timing flags.jitter)
      retimed [] disabled = disabled
      retimed (c ∷ path) (scs, declared, scheduled, enabled) =
          (scs, declared, record { order = scheduled.order; by_path = scheduled.by_path }, enabled)

  start_lem : start host files externals disk flags ≡ (
      new_mock_storage {Op = Op} host files flags.mock_dir >>= λ loaded.
      configure host files externals flags.mock_config loaded >>= λ s. ok (timed s))
  unfolding start
  start_lem = refl

  configured-StartOutcome :
      (s : MockStorage F Op) (o : Result (MockStorage F Op))
      → new_mock_storage host files flags.mock_dir ≡ ok s
      → ConfigureOutcome host files externals flags.mock_dir flags.mock_config s o
      → StartOutcome host files externals disk flags (o >>= λ s. ok (timed s))
  configured-StartOutcome s (ok s') loaded h = timed-Started s' h
  configured-StartOutcome s (err e) loaded h = inr (s, loaded, h.0, h.1)

  loaded-StartOutcome :
      (o : Result (MockStorage F Op))
      → new_mock_storage host files flags.mock_dir ≡ o
      → LoadOutcome Op host files flags.mock_dir o
      → StartOutcome host files externals disk flags (
          o >>= λ loaded.
          configure host files externals flags.mock_config loaded >>= λ s. ok (timed s))
  loaded-StartOutcome (ok s) e (indexed, disabled, readable) = configured-StartOutcome s _ e (
      configure-ConfigureOutcome host files externals flags.mock_dir flags.mock_config s indexed
        disabled)
  loaded-StartOutcome (err x) e h = inl h

  -- A start that succeeds gives a server with the timing and the logger of its flags, whose store
  -- indexes the responses of the mock directory and answers by mock id without a scenario file,
  -- and else by the scenarios that the file declares; a start fails only where the mock directory
  -- is there and cannot be read, or where the scenario file is refused.
  pub start-StartOutcome :
      StartOutcome host files externals disk flags (start host files externals disk flags)
  start-StartOutcome =
      rw start_lem
        (loaded-StartOutcome _ refl (new_mock_storage-LoadOutcome Op host files flags.mock_dir))
