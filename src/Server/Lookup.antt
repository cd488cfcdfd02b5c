-- ===== src/Server/Lookup.antt =====
-- The answers of a started server, from the files on disk.
use auto_mock_tools.Prelude.{
  ◌≡◌, ◌≢◌, refl, sym, ap, ◌∙◌, subst, true, false, ◌&&◌, ◌||◌, List, [], ◌∷◌, Bytes, codes, equal,
  find, All, ok,
}
use auto_mock_tools.Host.{Host, FileSystem}
use auto_mock_tools.Storage.Types.{MockScenario}
use auto_mock_tools.Storage.Find.{normalize}
use auto_mock_tools.Storage.Find.Catalog.{accepts, serves, NoPipe, Readable}
use auto_mock_tools.Storage.Load.Contents.{scan_base}
use auto_mock_tools.Scenario.Types.{Externals}
use auto_mock_tools.Handlers.{served}
use auto_mock_tools.Handlers.Calls.{Request}
use auto_mock_tools.Handlers.Routing.{mock_handler_lem}
use auto_mock_tools.Handlers.Lookup.{mock_id_of, wanted, mock_handler_refines}
use auto_mock_tools.Recorder.{Disk}
use auto_mock_tools.Server.{Flags, Server, is_some, start, serve}
use auto_mock_tools.Scenario.Match.Order.{Schedules}
use auto_mock_tools.Server.Outcome.{Mode}
use auto_mock_tools.Server.Declares.{Declares, Declares-unique}
use auto_mock_tools.Server.Answers.{
  is_stats, is_list, serve_mock, scheduled, lookup_mock-scheduled, started,
}

module _ {F Op : Type 0} (host : Host F) (files : FileSystem) (externals : Externals F Op)
    (disk : Disk) (flags : Flags F) (server : Server F Op)
    (e : start host files externals disk flags ≡ ok server) where
  -- A server that is started without a scenario file answers a request, to no endpoint of its own
  -- and not for everything, with the first mock of the mock directory in load order that has the
  -- request's path, mock id, first media type and method, and else with the 404 answer, if no
  -- path and mock id holds a '|'.
  pub serve_by_mock_id :
      (random : F) (request : Request)
      → flags.mock_config ≡ []
      → All Readable (scan_base host files flags.mock_dir)
      → NoPipe request.path (mock_id_of request)
      → (is_stats request || is_list request) ≡ false
      → equal (request.peek (codes "Accept")) (codes "*/*") ≡ false
      → serve host externals server random request
        ≡ served host externals server.store (is_some server.logger) random (
            find
              (λ r.
                serves request.path (mock_id_of request) (normalize (wanted request)) r
                && accepts request.method r)
              (scan_base host files flags.mock_dir))
  serve_by_mock_id random request no_config readable n mock one =
      let h = (started host files externals disk flags server e).configured in
      let disabled =
        subst (λ config. Mode host files externals config server.store) no_config h.mode in
      serve_mock host externals server random request mock
      ∙ sym (mock_handler_lem host externals server.store (is_some server.logger) random request)
      ∙ mock_handler_refines host externals (scan_base host files flags.mock_dir) server.store
          (is_some server.logger) random request h.indexed readable n disabled one

  Mode-Schedules :
      (config : Bytes) (scs : List (MockScenario F Op))
      → config ≢ []
      → Declares host files externals config scs
      → Mode host files externals config server.store
      → Schedules scs server.store × (server.store.scenarios_enabled ≡ true)
  Mode-Schedules [] scs ne declared h = absurd (ne refl)
  Mode-Schedules (c ∷ path) scs ne declared (scs', declared', order, enabled) = (
    subst (λ all. Schedules all server.store)
        (Declares-unique host files externals (c ∷ path) scs' scs declared' declared) order,
    enabled,
  )

  -- A server that is started with a scenario file, which declares a list of scenarios, answers a
  -- request to no endpoint of its own with the response of the first of them in order that has
  -- the request's path and whose method and filter let the request through, and else with the 404
  -- answer.
  pub serve_by_scenario :
      (scs : List (MockScenario F Op)) (random : F) (request : Request)
      → flags.mock_config ≢ []
      → Declares host files externals flags.mock_config scs
      → (is_stats request || is_list request) ≡ false
      → serve host externals server random request
        ≡ served host externals server.store
            (is_some server.logger)
            random
            (scheduled host externals request scs)
  serve_by_scenario scs random request ne declared mock =
      let (order, enabled) =
        Mode-Schedules flags.mock_config scs ne declared
          (started host files externals disk flags server e).configured.mode in
      serve_mock host externals server random request mock
      ∙ ap (served host externals server.store (is_some server.logger) random)
          (lookup_mock-scheduled host externals server.store scs request order enabled)
