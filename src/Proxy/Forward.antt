-- ===== src/Proxy/Forward.antt =====
-- pkg/proxy/handler.go: `Handle` for a request that expects no event stream, and `HandleConnect`.
use auto_mock_tools.Prelude.{
  ◌≡◌, false, ◌||◌, inl, inr, Bool-cases, List, [], ◌∷◌, ◌++◌, Option, none, some, if◌then◌else◌,
  Bytes, codes, equal, is_empty, contains, Assoc, insert, All, All-append,
}
use auto_mock_tools.Json.{str}
use auto_mock_tools.Host.{Host, pos}
use auto_mock_tools.Recorder.{Upstream, RequestData, json_or_text, with_mock_id}
use auto_mock_tools.Handlers.Calls.{Call, set_status_code, set_header, set_body}

-- A request to the proxy: `headers` in the order of `VisitAll`, `accept` and `mock_id` looked up in them.
pub record Incoming : Type 0 where
  pub method : Bytes
  pub path : Bytes
  pub query : Bytes
  pub url : Bytes
  pub headers : Assoc Bytes
  pub body : Bytes
  pub mock_id : Bytes
  pub accept : Bytes

-- The calls that prepare the request to the upstream server, in order.
pub data Prepare : Type 0 where
  set_uri set_method put_body delete_header : Bytes → Prepare
  put_header : Bytes → Bytes → Prepare

unfoldable pub target_of : Bytes → Incoming → Bytes
target_of target_url request =
    let url = target_url ++ request.path in
    if is_empty request.query then url else url ++ (codes "?" ++ request.query)

-- the headers that are not sent back to the client
abbrev pub hop_headers : List Bytes
hop_headers =
    codes "connection"
    ∷ codes "keep-alive"
    ∷ codes "proxy-authenticate"
    ∷ codes "proxy-authorization"
    ∷ codes "te"
    ∷ codes "trailers"
    ∷ codes "transfer-encoding"
    ∷ codes "upgrade"
    ∷ codes "x-mock-id"
    ∷ []

module _ {F : Type 0} (host : Host F) where
  -- the copies of the headers that are in neither excluded case
  unfoldable pub forward_headers : Assoc Bytes → List Prepare
  forward_headers [] = []
  forward_headers ((key, value) ∷ rest) =
      let later = forward_headers rest in
      if equal (host.to_lower key) (codes "host") || equal (host.to_lower key) (codes "x-mock-id")
      then later
      else put_header key value ∷ later

  unfoldable pub prepare_request : Bytes → Incoming → List Prepare
  unfolding target_of forward_headers
  prepare_request target_url request =
      (set_uri (target_of target_url request) ∷ set_method request.method ∷ [])
      ++ (forward_headers request.headers
          ++ (put_body request.body
              ∷ delete_header (codes "Proxy-Connection")
              ∷ delete_header (codes "Proxy-Authenticate")
              ∷ delete_header (codes "Proxy-Authorization")
              ∷ []))

  unfoldable pub return_headers : Assoc Bytes → List (Call F)
  return_headers [] = []
  return_headers ((key, value) ∷ rest) =
      let later = return_headers rest in
      if contains hop_headers (host.to_lower key) then later else set_header key value ∷ later

  -- `failure` is the text of the client's error; the record is written between the two
  unfoldable pub return_response : Bytes → Option Upstream → List (Call F)
  unfolding return_headers
  return_response failure none =
      set_status_code (pos 502) ∷ set_body (codes "Proxy error: " ++ failure) ∷ []
  return_response failure (some response) =
      set_status_code response.status_code
      ∷ (return_headers response.headers ++ (set_body response.body ∷ []))

  request_headers_from : Assoc Bytes → Assoc Bytes → Assoc Bytes
  request_headers_from acc [] = acc
  request_headers_from acc ((key, value) ∷ rest) = request_headers_from (insert key value acc) rest

  -- the request as it will be recorded; `id` and `time` are the clock's
  unfoldable pub request_data : Bytes → Bytes → Incoming → RequestData F
  unfolding json_or_text request_headers_from
  request_data id time request = record {
    request_id = id;
    timestamp = time;
    method = request.method;
    url = request.url;
    headers = with_mock_id host request.mock_id (request_headers_from [] request.headers);
    body = if is_empty request.body then str [] else json_or_text host request.body;
    mock_id = request.mock_id;
  }

module _ {F : Type 0} where
  unfoldable pub handle_connect : List (Call F)
  handle_connect =
      set_status_code (pos 405)
      ∷ set_body (codes "CONNECT method not supported. Use HTTP proxy mode only.")
      ∷ []

module _ {F : Type 0} (host : Host F) where
  -- The call gives the upstream server neither the host nor the mock id of the client's request.
  abbrev pub KeepsBack : Prepare → Type 0
  KeepsBack (put_header key value) =
      (equal (host.to_lower key) (codes "host") ≡ false)
      × (equal (host.to_lower key) (codes "x-mock-id") ≡ false)
  KeepsBack _ = Unit

  abbrev pub Stops : Call F → Type 0
  Stops (set_header key value) = contains hop_headers (host.to_lower key) ≡ false
  Stops _ = Unit

  forward_headers-KeepsBack : (m : Assoc Bytes) → All KeepsBack (forward_headers host m)
  unfolding forward_headers
  forward_headers-KeepsBack [] = tt
  forward_headers-KeepsBack ((key, value) ∷ m) =
      elim (Bool-cases (equal (host.to_lower key) (codes "host"))) [
        | inl same ↦ rw same (forward_headers-KeepsBack m)
        | inr other ↦ elim (Bool-cases (equal (host.to_lower key) (codes "x-mock-id"))) [
          | inl same ↦ rw (other, same) (forward_headers-KeepsBack m)
          | inr other' ↦ rw (other, other') ((other, other'), forward_headers-KeepsBack m)
        ]
      ]

  return_headers-Stops : (m : Assoc Bytes) → All Stops (return_headers host m)
  unfolding return_headers
  return_headers-Stops [] = tt
  return_headers-Stops ((key, value) ∷ m) =
      elim (Bool-cases (contains hop_headers (host.to_lower key))) [
        | inl hop ↦ rw hop (return_headers-Stops m)
        | inr free ↦ rw free (free, return_headers-Stops m)
      ]

  -- No header that the proxy sets on a request to the upstream server is the client's Host or
  -- x-mock-id, in the case-folding of strings.ToLower.
  pub prepare_request-KeepsBack :
      (target_url : Bytes) (request : Incoming)
      → All KeepsBack (prepare_request host target_url request)
  unfolding prepare_request
  prepare_request-KeepsBack target_url request = (
    tt,
    (
      tt,
      All-append KeepsBack (forward_headers host request.headers) _
          (forward_headers-KeepsBack request.headers) (tt, (tt, (tt, (tt, tt)))),
    ),
  )

  -- No header that the proxy sets on its response is a hop-by-hop header or x-mock-id, whether
  -- the upstream server answered or failed.
  pub return_response-Stops :
      (failure : Bytes) (o : Option Upstream) → All Stops (return_response host failure o)
  unfolding return_response
  return_response-Stops failure none = (tt, (tt, tt))
  return_response-Stops failure (some response) = (
    tt,
    All-append Stops (return_headers host response.headers) _
        (return_headers-Stops response.headers) (tt, tt),
  )
