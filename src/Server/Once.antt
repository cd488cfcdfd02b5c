-- ===== src/Server/Once.antt =====
-- How often an answer of the router sets its status code and its body.
use auto_mock_tools.Prelude.{◌≡◌, refl, Bool, Bool-cases, inl, inr, ◌||◌, if◌then◌else◌}
use auto_mock_tools.Host.{Host}
use auto_mock_tools.Storage.Types.{MockStorage}
use auto_mock_tools.Scenario.Types.{Externals}
use auto_mock_tools.Handlers.{router}
use auto_mock_tools.Handlers.Calls.{Request}
use auto_mock_tools.Handlers.Count.{is_status, is_body, count}
use auto_mock_tools.Handlers.Shape.{mock_handler_answers_once}
use auto_mock_tools.Server.Answers.{is_stats, is_list, router_lem}

module _ {F Op : Type 0} (host : Host F) (externals : Externals F Op)
    (store : MockStorage F Op) where
  -- The answer of the router to every request sets the body exactly once, whole or as a stream,
  -- and the status code exactly once, except at its own endpoints, GET of /__mock__/stats and of
  -- /__mock__/list, where it does not set the status code.
  pub router_answers_once :
      (logging : Bool) (random : F) (request : Request)
      → (count is_body (router host externals store logging random request) ≡ 1)
        × (count is_status (router host externals store logging random request)
            ≡ (if is_stats request || is_list request then 0 else 1))
  router_answers_once logging random request = elim (Bool-cases (is_stats request)) [
    | inl stats ↦ rw (router_lem, stats) (refl, refl)
    | inr no_stats ↦ elim (Bool-cases (is_list request)) [
      | inl list ↦ rw (router_lem, no_stats, list) (refl, refl)
      | inr no_list ↦
          let (status, body) =
            mock_handler_answers_once host externals store logging random request in
          rw (router_lem, no_stats, no_list) (body, status)
    ]
  ]
