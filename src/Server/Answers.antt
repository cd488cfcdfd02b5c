-- ===== src/Server/Answers.antt =====
-- What a started server answers.
use auto_mock_tools.Prelude.{
  ◌≡◌, refl, sym, ap, ◌∙◌, Bool, Bool-cases, inl, inr, true, false, ◌&&◌, ◌||◌, List, [], ◌∷◌,
  arith, Option, none, some, if◌then◌else◌, Option-cases, some_injective, subst, Bytes, codes,
  equal, find, find-eq-some, All, All-In, ok,
}
use auto_mock_tools.Host.{Host, FileSystem}
use auto_mock_tools.Storage.Types.{MockResponse, MockScenario, MockStorage}
use auto_mock_tools.Storage.Stats.{get_stats_json, get_mock_list_json}
use auto_mock_tools.Loader.WellFormed.{IsWellFormed}
use auto_mock_tools.Scenario.Types.{Externals}
use auto_mock_tools.Scenario.Match.{response_of}
use auto_mock_tools.Scenario.Match.Order.{Schedules, answers, match_scenario_response_refines}
use auto_mock_tools.Scenario.Load.WellFormed.{IsPlaced, ReadAs-IsPlaced}
use auto_mock_tools.Handlers.{router, mock_handler, served, lookup_mock, json_endpoint}
use auto_mock_tools.Handlers.Calls.{Request}
use auto_mock_tools.Handlers.Routing.{
  IsClean, served-IsClean, mock_handler_lem, lookup_mock_enabled, mock_handler-IsClean,
}
use auto_mock_tools.Recorder.{Disk}
use auto_mock_tools.Server.{Flags, Server, is_some, start, serve}
use auto_mock_tools.Server.Outcome.{Configured, Started, StartOutcome, start-StartOutcome}

-- the two endpoints of the server itself
abbrev pub is_stats : Request → Bool
is_stats request =
    equal request.path (codes "/__mock__/stats") && equal request.method (codes "GET")

abbrev pub is_list : Request → Bool
is_list request = equal request.path (codes "/__mock__/list") && equal request.method (codes "GET")

module _ {F Op : Type 0} (host : Host F) (externals : Externals F Op) where
  pub router_lem :
      (store : MockStorage F Op) (logging : Bool) (random : F) (request : Request)
      → router host externals store logging random request ≡ (
          if is_stats request
          then json_endpoint host externals (get_stats_json store)
          else if is_list request
          then json_endpoint host externals (get_mock_list_json store)
          else mock_handler host externals store logging random request)
  unfolding router
  router_lem store logging random request = refl

  pub serve_lem :
      (server : Server F Op) (random : F) (request : Request)
      → serve host externals server random request
        ≡ router host externals server.store (is_some server.logger) random request
  unfolding serve
  serve_lem server random request = refl

  pub serve_mock :
      (server : Server F Op) (random : F) (request : Request)
      → (is_stats request || is_list request) ≡ false
      → serve host externals server random request
        ≡ served host externals server.store
            (is_some server.logger)
            random
            (lookup_mock host externals server.store request)
  serve_mock server random request h =
      let s : is_stats request ≡ false = ground arith in
      let l : is_list request ≡ false = ground arith in
      serve_lem server random request
      ∙ rw (router_lem, s, l)
          (mock_handler_lem host externals server.store (is_some server.logger) random request)

  -- the search through the scenarios in order
  abbrev pub scheduled : Request → List (MockScenario F Op) → Option (MockResponse F)
  scheduled request scs = response_of (
      find
        (λ sc. equal sc.path request.path && answers externals request.method request.post_body sc)
        scs)

  pub lookup_mock-scheduled :
      (store : MockStorage F Op) (scs : List (MockScenario F Op)) (request : Request)
      → Schedules scs store
      → store.scenarios_enabled ≡ true
      → lookup_mock host externals store request ≡ scheduled request scs
  lookup_mock-scheduled store scs request h enabled =
      lookup_mock_enabled host externals store request enabled
      ∙ match_scenario_response_refines externals scs store request.path request.method
          request.post_body h enabled
      ∙ ap (scheduled request) h.order

  scheduled-IsWellFormed :
      (files : FileSystem) (scs : List (MockScenario F Op)) (request : Request) (r : MockResponse F)
      → All (IsPlaced host files externals) scs
      → scheduled request scs ≡ some r
      → IsWellFormed r
  scheduled-IsWellFormed files scs request r placed found =
      let test = λ (sc : MockScenario F Op).
        equal sc.path request.path && answers externals request.method request.post_body sc in
      elim (Option-cases (find test scs)) [
        | inl nothing ↦ let e : none ≡ some r = rw nothing at found in cc
        | inr (sc, some_sc) ↦
            let e : some sc.response ≡ some r = rw some_sc at found in
            let (i, _) = find-eq-some test sc scs some_sc in
            subst IsWellFormed (some_injective e)
              (All-In (IsPlaced host files externals) sc scs placed i).well_formed
      ]

module _ {F Op : Type 0} (host : Host F) (files : FileSystem) (externals : Externals F Op)
    (disk : Disk) (flags : Flags F) where
  pub started :
      (server : Server F Op)
      → start host files externals disk flags ≡ ok server
      → Started host files externals disk flags server
  started server e =
      subst (StartOutcome host files externals disk flags) e
        (start-StartOutcome host files externals disk flags)

  Mode-IsClean :
      (config : Bytes) (store : MockStorage F Op) (logging : Bool) (random : F) (request : Request)
      → Configured host files externals flags.mock_dir config store
      → IsClean host externals (mock_handler host externals store logging random request)
  Mode-IsClean [] store logging random request h =
      mock_handler-IsClean host externals files flags.mock_dir store logging random request
        h.indexed h.mode
  Mode-IsClean (c ∷ path) store logging random request h =
      let (scs, declared, order, enabled) = h.mode in
      rw mock_handler_lem (
        served-IsClean host externals store logging random _ (λ r found.
          scheduled-IsWellFormed host externals files scs request r
            (ReadAs-IsPlaced host files externals _ 0 declared.definitions scs declared.read_as)
            (sym (lookup_mock-scheduled host externals store scs request order enabled) ∙ found)))

  -- Every answer of a started server, whatever its flags, sets no hop-by-hop or internal header,
  -- in any case of letters, and sets the content type.
  pub serve-IsClean :
      (server : Server F Op) (random : F) (request : Request)
      → start host files externals disk flags ≡ ok server
      → IsClean host externals (serve host externals server random request)
  serve-IsClean server random request e =
      rw (serve_lem, router_lem)
        (elim (Bool-cases (is_stats request)) [
          | inl stats ↦ rw stats ((tt, (tt, tt)), refl)
          | inr other ↦ elim (Bool-cases (is_list request)) [
            | inl listed ↦ rw (other, listed) ((tt, (tt, tt)), refl)
            | inr mock ↦
                rw (other, mock)
                  (Mode-IsClean flags.mock_config server.store (is_some server.logger) random
                    request (started server e).configured)
          ]
        ])
