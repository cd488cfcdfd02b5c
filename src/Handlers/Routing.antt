-- ===== src/Handlers/Routing.antt =====
-- Which response `MockHandler` serves, and what it never does.
use auto_mock_tools.Prelude.{
  ◌≡◌, refl, sym, ap, ◌∙◌, Bool, true, false, Bool-cases, inl, inr, List, Option, none, some,
  if◌then◌else◌, Bytes, codes, equal, is_empty, All, All-In, In,
}
use auto_mock_tools.Host.{Host, FileSystem}
use auto_mock_tools.Storage.Types.{MockResponse, MockStorage}
use auto_mock_tools.Storage.Find.Catalog.{Indexes}
use auto_mock_tools.Storage.Find.Exact.{find_response_bytes-In}
use auto_mock_tools.Storage.Find.AnyType.{find_any-In}
use auto_mock_tools.Storage.Load.Contents.{scan_base}
use auto_mock_tools.Storage.Load.WellFormed.{scan_base-IsWellFormed}
use auto_mock_tools.Loader.WellFormed.{IsWellFormed}
use auto_mock_tools.Scenario.Types.{Externals}
use auto_mock_tools.Scenario.Match.{match_scenario_response}
use auto_mock_tools.Handlers.Calls.{Request, Call, default_content_type}
use auto_mock_tools.Handlers.{find_by_mock_id, lookup_mock, served, mock_handler}
use auto_mock_tools.Handlers.Headers.{
  Hides, sets_type, any_call, respond-Hides, respond-sets_type, not_found-Hides,
  not_found-sets_type,
}

module _ {F Op : Type 0} (host : Host F) (externals : Externals F Op) where
  pub mock_handler_lem :
      (store : MockStorage F Op) (logging : Bool) (random : F) (request : Request)
      → mock_handler host externals store logging random request
        ≡ served host externals store logging random (lookup_mock host externals store request)
  unfolding mock_handler
  mock_handler_lem store logging random request = refl

  pub lookup_mock_lem :
      (store : MockStorage F Op) (request : Request)
      → lookup_mock host externals store request ≡ (
          if store.scenarios_enabled
          then match_scenario_response externals store request.path request.method request.post_body
          else find_by_mock_id host externals store request)
  unfolding lookup_mock
  lookup_mock_lem store request = refl

  -- With scenarios enabled, two requests with the same path, method and body get the same answer,
  -- whatever their headers.
  pub mock_handler_ignores_headers :
      (store : MockStorage F Op) (logging : Bool) (random : F) (request request' : Request)
      → store.scenarios_enabled ≡ true
      → request.path ≡ request'.path
      → request.method ≡ request'.method
      → request.post_body ≡ request'.post_body
      → mock_handler host externals store logging random request
        ≡ mock_handler host externals store logging random request'
  mock_handler_ignores_headers store logging random request request' enabled path method body =
      rw
        (
          mock_handler_lem, mock_handler_lem, lookup_mock_lem, lookup_mock_lem, enabled, path,
          method, body,
        )
        refl

  -- The mock id lookup answers with a loaded response.
  find_by_mock_id-In :
      (rs : List (MockResponse F)) (store : MockStorage F Op) (request : Request)
      (r : MockResponse F)
      → Indexes rs store
      → find_by_mock_id host externals store request ≡ some r
      → In r rs
  unfolding find_by_mock_id
  find_by_mock_id-In rs store request r h found =
      let accept = request.peek (codes "Accept") in
      elim (Bool-cases (is_empty accept)) [
        | inl no_accept ↦
            find_response_bytes-In rs store request.path _ default_content_type request.method r h
              (rw no_accept at found)
        | inr accepts ↦ elim (Bool-cases (equal accept (codes "*/*"))) [
          | inl any ↦
              find_any-In host rs store request.path _ request.method r h
                (rw (accepts, any) at found)
          | inr one ↦
              find_response_bytes-In rs store request.path _ _ request.method r h
                (rw (accepts, one) at found)
        ]
      ]

  -- the lookup of either mode
  abbrev lookup_mode : MockStorage F Op → Request → Bool → Option (MockResponse F)
  lookup_mode store request enabled =
      if enabled
      then match_scenario_response externals store request.path request.method request.post_body
      else find_by_mock_id host externals store request

  pub lookup_mock_disabled :
      (store : MockStorage F Op) (request : Request)
      → store.scenarios_enabled ≡ false
      → lookup_mock host externals store request ≡ find_by_mock_id host externals store request
  lookup_mock_disabled store request disabled =
      lookup_mock_lem store request ∙ ap (lookup_mode store request) disabled

  pub lookup_mock_enabled :
      (store : MockStorage F Op) (request : Request)
      → store.scenarios_enabled ≡ true
      → lookup_mock host externals store request
        ≡ match_scenario_response externals store request.path request.method request.post_body
  lookup_mock_enabled store request enabled =
      lookup_mock_lem store request ∙ ap (lookup_mode store request) enabled

  lookup_mock-In :
      (rs : List (MockResponse F)) (store : MockStorage F Op) (request : Request)
      (r : MockResponse F)
      → Indexes rs store
      → store.scenarios_enabled ≡ false
      → lookup_mock host externals store request ≡ some r
      → In r rs
  lookup_mock-In rs store request r h disabled found =
      find_by_mock_id-In rs store request r h
        (sym (lookup_mock_disabled store request disabled) ∙ found)

  -- The calls of an answer set no excluded header and set the content type.
  abbrev pub IsClean : List (Call F) → Type 0
  IsClean calls = All Hides calls × (any_call sets_type calls ≡ true)

  pub served-IsClean :
      (store : MockStorage F Op) (logging : Bool) (random : F) (o : Option (MockResponse F))
      → ((r : MockResponse F) → o ≡ some r → IsWellFormed r)
      → IsClean (served host externals store logging random o)
  unfolding served
  served-IsClean store logging random none h =
      (not_found-Hides F logging, not_found-sets_type F logging)
  served-IsClean store logging random (some r) h =
      let keyed = (h r refl).keyed in
      (respond-Hides host store random r keyed, respond-sets_type host store random r keyed)

  -- In a store that indexes the responses of a mock directory, with scenarios disabled, the calls
  -- that answer any request set no hop-by-hop or internal header, in any case of letters, and set
  -- the content type.
  pub mock_handler-IsClean :
      (files : FileSystem) (base : Bytes) (store : MockStorage F Op) (logging : Bool) (random : F)
      (request : Request)
      → Indexes (scan_base host files base) store
      → store.scenarios_enabled ≡ false
      → IsClean (mock_handler host externals store logging random request)
  mock_handler-IsClean files base store logging random request h disabled = rw mock_handler_lem (
      served-IsClean store logging random _ (λ r found.
        All-In IsWellFormed r _ (scan_base-IsWellFormed host files base)
          (lookup_mock-In (scan_base host files base) store request r h disabled found)))
