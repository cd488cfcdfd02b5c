-- ===== src/Handlers/Calls.antt =====
-- pkg/handlers/handlers.go: a request as a handler reads it, and the calls that a handler makes on
-- fasthttp's context, in order.
use auto_mock_tools.Prelude.{List, [], ◌∷◌, Bytes, codes}
use auto_mock_tools.Host.{ℤ}
use auto_mock_tools.Storage.Types.{SseEvent}

-- `peek` is the header lookup of fasthttp, empty for a header that is not there.
pub record Request : Type 0 where
  pub path : Bytes
  pub method : Bytes
  pub post_body : Bytes
  pub peek : Bytes → Bytes

-- `stream_body` hands the response to a writer of these events at this jitter scale; `log_not_found`
-- is the call of the logger; `sleep` is in nanoseconds.
pub data Call (F : Type 0) : Type 0 where
  set_status_code : ℤ → Call F
  set_header : Bytes → Bytes → Call F
  set_content_type : Bytes → Call F
  set_body : Bytes → Call F
  stream_body : List (SseEvent F) → F → Call F
  sleep : ℤ → Call F
  log_not_found : Call F

abbrev pub default_mock_id : Bytes
default_mock_id = codes "default"

abbrev pub default_content_type : Bytes
default_content_type = codes "application/json"

abbrev pub error_not_found : Bytes
error_not_found = codes "{\"error\":\"No mock found\"}"

-- `excludeHeadersLower`
abbrev pub exclude_headers_lower : List Bytes
exclude_headers_lower =
    codes "connection"
    ∷ codes "keep-alive"
    ∷ codes "proxy-authenticate"
    ∷ codes "proxy-authorization"
    ∷ codes "te"
    ∷ codes "trailers"
    ∷ codes "transfer-encoding"
    ∷ codes "upgrade"
    ∷ codes "content-encoding"
    ∷ codes "content-length"
    ∷ codes "x-mock-id"
    ∷ []
