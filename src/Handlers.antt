-- ===== src/Handlers.antt =====
-- pkg/handlers/handlers.go: `MockHandler`, `StatsHandler`, `ListMocksHandler` and `Router`.
pub mod Calls
pub mod Stream
pub mod Headers
pub mod Timing
pub mod Routing
pub mod Lookup
pub mod Count
pub mod Shape
pub mod Pool
use auto_mock_tools.Prelude.{
  Bool, true, false, not, ◌&&◌, List, [], ◌∷◌, ◌++◌, Option, none, some, if◌then◌else◌, Bytes,
  codes, equal, is_empty, cut_at, contains, Assoc,
}
use auto_mock_tools.Ascii.{trim_space_ascii}
use auto_mock_tools.Host.{Host, pos}
use auto_mock_tools.Storage.Types.{SseEvent, MockResponse, MockStorage}
use auto_mock_tools.Storage.Find.{find_response_bytes, find_response_bytes_any_content_type}
use auto_mock_tools.Storage.Stats.{get_stats_json, get_mock_list_json}
use auto_mock_tools.Loader.Fields.{text_at}
use auto_mock_tools.Scenario.Types.{Externals}
use auto_mock_tools.Scenario.Load.{has_events}
use auto_mock_tools.Scenario.Match.{has_scenarios, match_scenario_response}
use auto_mock_tools.Handlers.Calls.{
  Request, Call, set_status_code, set_header, set_content_type, set_body, stream_body, sleep,
  log_not_found, default_mock_id, default_content_type, error_not_found, exclude_headers_lower,
}
use auto_mock_tools.Handlers.Stream.{nanoseconds}

-- the first media type of an Accept header, without its parameters
unfoldable pub first_accept : Bytes → Bytes
first_accept accept = trim_space_ascii (cut_at b';' (cut_at b',' accept))

abbrev pub or_default : Bytes → Bytes → Bytes
or_default default [] = default
or_default default (c ∷ cs) = c ∷ cs

module _ {F Op : Type 0} (host : Host F) (externals : Externals F Op) where
  -- the lookup by mock id and Accept header
  unfoldable pub find_by_mock_id : MockStorage F Op → Request → Option (MockResponse F)
  unfolding first_accept
  find_by_mock_id store request =
      let mock_id = or_default default_mock_id (request.peek (codes "x-mock-id")) in
      let accept = request.peek (codes "Accept") in
      if is_empty accept
      then find_response_bytes store request.path mock_id default_content_type request.method
      else if equal accept (codes "*/*")
      then find_response_bytes_any_content_type host store request.path mock_id request.method
      else find_response_bytes store request.path mock_id (first_accept accept) request.method

  unfoldable pub lookup_mock : MockStorage F Op → Request → Option (MockResponse F)
  unfolding find_by_mock_id
  lookup_mock store request =
      if has_scenarios store
      then match_scenario_response externals store request.path request.method request.post_body
      else find_by_mock_id store request

module _ {F : Type 0} (host : Host F) where
  -- `random` is what `rand.Float64()` returns: (random*2 - 1) * range
  abbrev jitter_amount : F → F → F
  jitter_amount random range = host.mul (host.sub (host.mul random host.two) host.one) range

  abbrev not_negative : F → F
  not_negative x = if host.lt x host.zero then host.zero else x

  unfoldable pub jittered_delay : F → F → F → F
  jittered_delay jitter random delay =
      if host.lt host.zero jitter
      then not_negative (host.add delay (jitter_amount random (host.mul delay jitter)))
      else delay

  unfoldable pub jitter_scale : F → F → F
  jitter_scale jitter random =
      if host.lt host.zero jitter
      then not_negative (host.add host.one (jitter_amount random jitter))
      else host.one

  -- the loop over `HeaderKeysLower`, with the flag `contentTypeSet`
  copy_headers_from : Assoc Bytes → Bool → Assoc Bytes → Bool × List (Call F)
  copy_headers_from headers content_type_set [] = (content_type_set, [])
  copy_headers_from headers content_type_set ((key_lower, key) ∷ rest) =
      if contains exclude_headers_lower key_lower
      then copy_headers_from headers content_type_set rest
      else let later =
          copy_headers_from headers
            (if equal key_lower (codes "content-type") then true else content_type_set) rest in
        (later.0, set_header key (text_at key headers) ∷ later.1)

  unfoldable pub response_headers : MockResponse F → List (Call F)
  unfolding copy_headers_from
  response_headers r =
      let (content_type_set, calls) =
        copy_headers_from r.headers false (host.visit _ r.header_keys_lower) in
      if content_type_set
      then calls
      else calls ++ set_content_type (or_default default_content_type r.content_type) ∷ []

module _ {F Op : Type 0} (host : Host F) where
  unfoldable pub replay_delay : MockStorage F Op → F → MockResponse F → List (Call F)
  unfolding jittered_delay
  replay_delay store random r =
      if store.replay_timing && not r.is_sse && host.lt host.zero r.delay
      then sleep (nanoseconds host (jittered_delay host store.jitter random r.delay)) ∷ []
      else []

  unfoldable pub response_body : MockStorage F Op → F → MockResponse F → List (Call F)
  unfolding jitter_scale
  response_body store random r =
      if r.is_sse && has_events r.sse_events && store.replay_timing
      then stream_body r.sse_events (jitter_scale host store.jitter random) ∷ []
      else set_body r.body ∷ []

  unfoldable pub respond : MockStorage F Op → F → MockResponse F → List (Call F)
  unfolding replay_delay response_headers response_body
  respond store random r =
      replay_delay store random r
      ++ (set_status_code r.status_code ∷ (response_headers host r ++ response_body store random r))

module _ {F : Type 0} where
  -- `logging` is `logger != nil`
  unfoldable pub not_found : Bool → List (Call F)
  not_found logging =
      set_status_code (pos 404)
      ∷ set_header (codes "Content-Type") default_content_type
      ∷ set_body error_not_found
      ∷ (if logging then log_not_found ∷ [] else [])

module _ {F Op : Type 0} (host : Host F) (externals : Externals F Op) where
  unfoldable pub served : MockStorage F Op → Bool → F → Option (MockResponse F) → List (Call F)
  unfolding not_found respond
  served store logging random none = not_found logging
  served store logging random (some r) = respond host store random r

  unfoldable pub mock_handler : MockStorage F Op → Bool → F → Request → List (Call F)
  unfolding lookup_mock served
  mock_handler store logging random request =
      served store logging random (lookup_mock host externals store request)

  abbrev pub json_endpoint : Bytes → List (Call F)
  json_endpoint body = set_content_type (codes "application/json") ∷ set_body body ∷ []

  unfoldable pub router : MockStorage F Op → Bool → F → Request → List (Call F)
  unfolding mock_handler
  router store logging random request =
      if equal request.path (codes "/__mock__/stats") && equal request.method (codes "GET")
      then json_endpoint (get_stats_json store)
      else if equal request.path (codes "/__mock__/list") && equal request.method (codes "GET")
      then json_endpoint (get_mock_list_json store)
      else mock_handler store logging random request
