-- ===== src/Handlers/Lookup.antt =====
-- The response that a loaded mock directory gives to a request, with scenarios disabled.
use auto_mock_tools.Prelude.{
  ◌≡◌, ◌≢◌, refl, sym, ap, ◌∙◌, Bool, false, ◌&&◌, inl, inr, Bool-cases, List, none, some,
  Option-cases, if◌then◌else◌, arith, Bytes, codes, equal, equal_iff, is_empty, find, All, All-In,
  In, find-eq-some,
}
use auto_mock_tools.Host.{Host}
use auto_mock_tools.Storage.Types.{MockResponse, MockStorage}
use auto_mock_tools.Storage.Find.{
  normalize, find_response_bytes, find_response_bytes_any_content_type,
}
use auto_mock_tools.Storage.Find.Catalog.{accepts, serves, NoPipe, Readable, Indexes}
use auto_mock_tools.Storage.Find.Exact.{find_response_bytes_refines}
use auto_mock_tools.Storage.Find.AnyType.{find_any_sound}
use auto_mock_tools.Scenario.Types.{Externals}
use auto_mock_tools.Handlers.Calls.{Request, default_mock_id, default_content_type}
use auto_mock_tools.Handlers.{
  or_default, first_accept, find_by_mock_id, served, not_found, mock_handler,
}
use auto_mock_tools.Handlers.Routing.{mock_handler_lem, lookup_mock_disabled}

-- the mock id of a request
abbrev pub mock_id_of : Request → Bytes
mock_id_of request = or_default default_mock_id (request.peek (codes "x-mock-id"))

-- the content type that a request asks for, where it asks for one
abbrev pub wanted : Request → Bytes
wanted request =
    if is_empty (request.peek (codes "Accept"))
    then default_content_type
    else first_accept (request.peek (codes "Accept"))

module _ {F Op : Type 0} (host : Host F) (externals : Externals F Op) (rs : List (MockResponse F))
    (store : MockStorage F Op) where
  find_by_mock_id_one :
      (request : Request)
      → equal (request.peek (codes "Accept")) (codes "*/*") ≡ false
      → find_by_mock_id host externals store request
        ≡ find_response_bytes store request.path
            (mock_id_of request)
            (wanted request)
            request.method
  unfolding find_by_mock_id
  find_by_mock_id_one request h = elim (Bool-cases (is_empty (request.peek (codes "Accept")))) [
    | inl no_accept ↦ rw no_accept refl
    | inr one ↦ rw (one, h) refl
  ]

  find_by_mock_id_any :
      (request : Request)
      → request.peek (codes "Accept") ≡ codes "*/*"
      → find_by_mock_id host externals store request
        ≡ find_response_bytes_any_content_type host store request.path
            (mock_id_of request)
            request.method
  unfolding find_by_mock_id equal
  find_by_mock_id_any request h = rw h refl

  -- In a store that indexes a list of responses, with scenarios disabled and no '|' in paths and
  -- mock ids, a request that does not accept everything is answered with the first loaded
  -- response in load order that has its path, its mock id, the first media type of its Accept
  -- header and its method, and with the 404 answer if there is none.
  pub mock_handler_refines :
      (logging : Bool) (random : F) (request : Request)
      → Indexes rs store
      → All Readable rs
      → NoPipe request.path (mock_id_of request)
      → store.scenarios_enabled ≡ false
      → equal (request.peek (codes "Accept")) (codes "*/*") ≡ false
      → mock_handler host externals store logging random request
        ≡ served host externals store logging random (
            find
              (λ r.
                serves request.path (mock_id_of request) (normalize (wanted request)) r
                && accepts request.method r)
              rs)
  mock_handler_refines logging random request h readable n disabled one =
      mock_handler_lem host externals store logging random request
      ∙ ap (served host externals store logging random) (
          lookup_mock_disabled host externals store request disabled
          ∙ find_by_mock_id_one request one
          ∙ find_response_bytes_refines rs store request.path (mock_id_of request) (wanted request)
              request.method h readable n)

  serves_path :
      (p m c method : Bytes) (r : MockResponse F)
      → find (λ r. serves p m c r && accepts method r) rs ≡ some r
      → In r rs × (r.path ≡ p)
  serves_path p m c method r found =
      let (i, ok) = find-eq-some _ r rs found in (i, ground (arith, equal_iff r.path p))

  -- An answer is a loaded response with the path of the request.
  find_by_mock_id_path :
      (request : Request) (r : MockResponse F)
      → Indexes rs store
      → All Readable rs
      → NoPipe request.path (mock_id_of request)
      → find_by_mock_id host externals store request ≡ some r
      → In r rs × (r.path ≡ request.path)
  find_by_mock_id_path request r h readable n found =
      let accept = request.peek (codes "Accept") in
      elim (Bool-cases (equal accept (codes "*/*"))) [
        | inl any ↦
            let all =
              find_any_sound host rs store request.path (mock_id_of request) request.method r h
                readable n
                (sym (find_by_mock_id_any request ((equal_iff accept (codes "*/*")).0 any))
                  ∙ found) in
            (all.0, all.1)
        | inr one ↦
            serves_path request.path (mock_id_of request) (normalize (wanted request))
              request.method r
              (sym (
                  find_by_mock_id_one request one
                  ∙ find_response_bytes_refines rs store request.path (mock_id_of request)
                      (wanted request) request.method h readable n)
                ∙ found)
      ]

  -- A request whose path no loaded response has is answered with the 404 answer, whatever it
  -- accepts, in a store with scenarios disabled and no '|' in paths and mock ids.
  pub mock_handler_unknown :
      (logging : Bool) (random : F) (request : Request)
      → Indexes rs store
      → All Readable rs
      → NoPipe request.path (mock_id_of request)
      → store.scenarios_enabled ≡ false
      → All (λ (r : MockResponse F). r.path ≢ request.path) rs
      → mock_handler host externals store logging random request ≡ not_found logging
  unfolding served
  mock_handler_unknown logging random request h readable n disabled absent =
      let found = find_by_mock_id host externals store request in
      mock_handler_lem host externals store logging random request
      ∙ ap (served host externals store logging random)
          (lookup_mock_disabled host externals store request disabled ∙ nothing)
    where
      nothing : find_by_mock_id host externals store request ≡ none
      nothing = elim (Option-cases (find_by_mock_id host externals store request)) [
        | inl e ↦ e
        | inr (r, e) ↦
            let (i, same) = find_by_mock_id_path request r h readable n e in
            elim (All-In (λ (x : MockResponse F). x.path ≢ request.path) r rs absent i same) [ ]
      ]
