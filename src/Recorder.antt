-- ===== src/Recorder.antt =====
-- pkg/proxy/recorder.go: `RecordPair` and `RecordSSEPair`, and what they write.
pub mod Replay
pub mod Text
pub mod Name
pub mod Timed
use auto_mock_tools.Prelude.{
  Bool, true, false, not, List, [], ◌∷◌, ◌++◌, map, Option, none, some, ◌==◌, if◌then◌else◌, Bytes,
  codes, equal, is_empty, cut_at, has_prefix, drop, Assoc, insert, Result, ok, err, or_error, ◌>>=◌,
  marshal_failed, write_failed, ℕ,
}
use auto_mock_tools.Json.{Json, num, str, arr, obj, items, fields}
use auto_mock_tools.Host.{Host, ℤ, pos}
use auto_mock_tools.Loader.Body.{event_stream}

pub record RequestData (F : Type 0) : Type 0 where
  pub request_id : Bytes
  pub timestamp : Bytes
  pub method : Bytes
  pub url : Bytes
  pub headers : Assoc Bytes
  pub body : Json F
  pub mock_id : Bytes

-- A response of fasthttp: `headers` in the order of `VisitAll`, and `peek` the header lookup.
pub record Upstream : Type 0 where
  pub status_code : ℤ
  pub headers : Assoc Bytes
  pub peek : Bytes → Bytes
  pub body : Bytes

-- The clock, the random source and the disk at the time of one call. A write that fails is `false`.
pub record Disk : Type 0 where
  pub response_time : Bytes
  pub file_time : Bytes
  pub random_hex : Bytes
  pub join : Bytes → Bytes → Bytes
  pub make_dir_all : Bytes → Bool
  pub write_file : Bytes → Bytes → Bool

-- `strings.ReplaceAll` of one byte by one byte
unfoldable pub replace_byte : ℕ → ℕ → Bytes → Bytes
replace_byte old new = map (λ c. if c == old then new else c)

-- `strings.Split(s, sep)` at one byte
unfoldable pub prepend : ℕ → List Bytes → List Bytes
prepend c [] = (c ∷ []) ∷ []
prepend c (line ∷ lines) = (c ∷ line) ∷ lines

unfoldable pub split : ℕ → Bytes → List Bytes
unfolding prepend
split sep [] = [] ∷ []
split sep (c ∷ s) = let rest = split sep s in if c == sep then [] ∷ rest else prepend c rest

module _ {F : Type 0} (host : Host F) where
  unfoldable pub sanitize_content_type : Bytes → Bytes
  unfolding replace_byte
  sanitize_content_type content_type =
      let name = host.trim_space (cut_at b';' content_type) in
      let name = replace_byte b'.' b'_' (replace_byte b'+' b'_' (replace_byte b'/' b'_' name)) in
      if is_empty name then codes "unknown" else name

  -- the JSON value of the text, or else the text
  unfoldable pub json_or_text : Bytes → Json F
  json_or_text bytes = elim (host.unmarshal bytes) [ none ↦ str bytes | some j ↦ j ]

  -- the loop over the lines, with the events so far
  sse_lines_from : List (Json F) → List Bytes → List (Json F)
  unfolding json_or_text
  sse_lines_from events [] = events
  sse_lines_from events (line ∷ lines) =
      let trimmed = host.trim_space line in
      if has_prefix (codes "data: ") trimmed
      then sse_lines_from (events ++ json_or_text (drop 6 trimmed) ∷ []) lines
      else sse_lines_from events lines

  -- the events; the second result of the Go function is whether there are any
  unfoldable pub parse_sse_events : Bytes → List (Json F)
  unfolding sse_lines_from split
  parse_sse_events body = sse_lines_from [] (split b'\n' body)

  -- the loop over the headers of the response
  response_headers_from : Assoc Bytes → Assoc Bytes → Assoc Bytes
  response_headers_from acc [] = acc
  response_headers_from acc ((key, value) ∷ rest) =
      response_headers_from
        (if equal (host.to_lower key) (codes "x-mock-id") then acc else insert key value acc) rest

  abbrev pub with_mock_id : Bytes → Assoc Bytes → Assoc Bytes
  with_mock_id mock_id headers =
      if is_empty mock_id then headers else insert (codes "x-mock-id") mock_id headers

  unfoldable pub recorded_headers : RequestData F → Upstream → Assoc Bytes
  unfolding response_headers_from
  recorded_headers request response =
      with_mock_id request.mock_id (response_headers_from [] response.headers)

  abbrev sse_or_text : Bytes → List (Json F) → Json F
  sse_or_text body [] = str body
  sse_or_text body (e ∷ es) = arr (items (e ∷ es))

  abbrev pub upstream_type : Upstream → Bytes
  upstream_type response =
      let content_type = response.peek (codes "Content-Type") in
      if is_empty content_type then codes "application/octet-stream" else content_type

  unfoldable pub body_data : Upstream → Json F
  unfolding parse_sse_events json_or_text
  body_data response =
      if equal (response.peek (codes "Content-Encoding")) (codes "gzip")
      then str (host.base64_encode response.body)
      else if equal (upstream_type response) event_stream
      then sse_or_text response.body (parse_sse_events response.body)
      else json_or_text response.body

  abbrev text_map : Assoc Bytes → Json F
  text_map m = obj (fields (map (λ (k, v). (k, str v)) m))

  -- the two objects of a record
  abbrev pub request_fields : RequestData F → Assoc (Json F)
  request_fields request =
      (codes "request_id", str request.request_id)
      ∷ (codes "timestamp", str request.timestamp)
      ∷ (codes "method", str request.method)
      ∷ (codes "url", str request.url)
      ∷ (codes "headers", text_map request.headers)
      ∷ (codes "body", request.body)
      ∷ []

  abbrev pub response_fields : Disk → RequestData F → ℤ → Assoc Bytes → Json F → F → Assoc (Json F)
  response_fields disk request status_code headers body delay =
      (codes "request_id", str request.request_id)
      ∷ (codes "timestamp", str disk.response_time)
      ∷ (codes "status_code", num (host.of_int status_code))
      ∷ (codes "headers", text_map headers)
      ∷ (codes "body", body)
      ∷ (codes "delay", num delay)
      ∷ []

  abbrev pub record_json : Assoc (Json F) → Assoc (Json F) → Json F
  record_json request response = obj (
      fields
        ((codes "request", obj (fields request)) ∷ (codes "response", obj (fields response)) ∷ []))

module _ {F : Type 0} (host : Host F) (disk : Disk) (base_dir : Bytes) where
  abbrev pub written_to : Bytes → Bytes → Result (Bytes × Bytes)
  written_to file bytes = if disk.write_file file bytes then ok (file, bytes) else err write_failed

  abbrev pub mock_dir : RequestData F → Bytes
  mock_dir request =
      disk.join base_dir (if is_empty request.mock_id then codes "default" else request.mock_id)

  -- the folder, the file name with this first part, and the write; the result is what was written
  unfoldable pub save : RequestData F → Bytes → Json F → Result (Bytes × Bytes)
  save request kind j =
      if not (disk.make_dir_all (mock_dir request))
      then err write_failed
      else or_error marshal_failed (host.marshal_indent j)
        >>= written_to (
            disk.join (mock_dir request) (
              kind ++ codes "_" ++ disk.file_time ++ codes "_" ++ disk.random_hex ++ codes ".json"))

  unfoldable pub record_pair : RequestData F → Upstream → F → Result (Bytes × Bytes)
  unfolding save body_data recorded_headers sanitize_content_type
  record_pair request response delay =
      save request (sanitize_content_type host (upstream_type host response)) (
        record_json host (request_fields host request) (
          response_fields host disk request response.status_code
            (recorded_headers host request response) (body_data host response) delay))

  unfoldable pub record_sse_pair :
      RequestData F → ℤ → List (Json F) → F → Assoc Bytes → Result (Bytes × Bytes)
  unfolding save
  record_sse_pair request status_code events delay saved_headers =
      save request (codes "text_event-stream") (
        record_json host (request_fields host request) (
          response_fields host disk request status_code
            (with_mock_id host request.mock_id saved_headers) (arr (items events)) delay))
