-- ===== src/Server.antt =====
-- cmd/auto-mock-server/main.go, and the logger that `Router` makes in pkg/handlers/handlers.go: from
-- the flags of the command line to the handler of the server.
pub mod Declares
pub mod Outcome
pub mod Answers
pub mod Lookup
pub mod Endpoints
pub mod Once
pub mod Loaded
pub mod Recorded
pub mod Streamed
use auto_mock_tools.Prelude.{
  Bool, true, false, List, Option, none, some, if◌then◌else◌, Bytes, is_empty, Error, Result, ok,
  err, ◌>>=◌,
}
use auto_mock_tools.Host.{Host, FileSystem}
use auto_mock_tools.Storage.Types.{MockStorage}
use auto_mock_tools.Storage.Load.{new_mock_storage, set_timing_config}
use auto_mock_tools.Scenario.Types.{Externals}
use auto_mock_tools.Scenario.Load.{load_scenario_config}
use auto_mock_tools.Handlers.Calls.{Request, Call}
use auto_mock_tools.Handlers.{router}
use auto_mock_tools.Recorder.{Disk}
use auto_mock_tools.NotFound.{new_not_found_logger}

-- The flags that the handler depends on; the others are the address to listen on.
pub record Flags (F : Type 0) : Type 0 where
  pub mock_dir : Bytes
  pub mock_config : Bytes
  pub log_dir : Bytes
  pub replay_timing : Bool
  pub jitter : F

-- What the request handler closes over.
pub record Server (F Op : Type 0) : Type 0 where
  pub store : MockStorage F Op
  pub logger : Option Bytes

abbrev pub is_some {ℓ} : {A : Type ℓ} → Option A → Bool
is_some none = false
is_some (some a) = true

-- A logger whose directory cannot be made is no logger.
unfoldable pub router_logger : Disk → Bytes → Option Bytes
unfolding new_not_found_logger
router_logger disk log_dir = if is_empty log_dir then none else new_not_found_logger disk log_dir

module _ {F Op : Type 0} (host : Host F) (files : FileSystem) (externals : Externals F Op) where
  abbrev pub or_fatal : Option Error × MockStorage F Op → Result (MockStorage F Op)
  or_fatal (none, s) = ok s
  or_fatal (some e, s) = err e

  unfoldable pub configure : Bytes → MockStorage F Op → Result (MockStorage F Op)
  unfolding load_scenario_config
  configure mock_config s =
      if is_empty mock_config
      then ok s
      else or_fatal (load_scenario_config host files externals mock_config s)

  -- `main` up to the start of the server; an error is `log.Fatalf`
  unfoldable pub start : Disk → Flags F → Result (Server F Op)
  unfolding new_mock_storage configure set_timing_config router_logger
  start disk flags = do
    loaded ← new_mock_storage {Op = Op} host files flags.mock_dir
    configured ← configure flags.mock_config loaded
    ok (record {
      store = set_timing_config configured flags.replay_timing flags.jitter;
      logger = router_logger disk flags.log_dir;
    })

module _ {F Op : Type 0} (host : Host F) (externals : Externals F Op) where
  -- the handler of the running server
  unfoldable pub serve : Server F Op → F → Request → List (Call F)
  unfolding router
  serve server random request =
      router host externals server.store (is_some server.logger) random request
