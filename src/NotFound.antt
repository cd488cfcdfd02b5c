-- ===== src/NotFound.antt =====
-- pkg/storage/logger.go: `NotFoundLogger`, the records that it writes and the names of their files.
pub mod Replay
pub mod Name
use auto_mock_tools.Prelude.{
  [], ◌∷◌, ◌++◌, ◌||◌, if◌then◌else◌, Option, none, some, Bytes, codes, equal, is_empty, cut_at,
  Assoc, insert, Result, or_error, ◌>>=◌, marshal_failed,
}
use auto_mock_tools.Json.{Json, str}
use auto_mock_tools.Host.{Host, ℤ, pos}
use auto_mock_tools.Recorder.{
  RequestData, Disk, replace_byte, json_or_text, request_fields, response_fields, record_json,
  written_to,
}

-- The context of a request that was answered with 404, as the logger reads it: the headers in the
-- order of `VisitAll`, and `accept` the header lookup.
pub record Exchange : Type 0 where
  pub method : Bytes
  pub request_uri : Bytes
  pub request_headers : Assoc Bytes
  pub post_body : Bytes
  pub accept : Bytes
  pub status_code : ℤ
  pub response_headers : Assoc Bytes
  pub response_body : Bytes

-- `NewNotFoundLogger`; a logger is its base directory
unfoldable pub new_not_found_logger : Disk → Bytes → Option Bytes
new_not_found_logger disk base_dir = if disk.make_dir_all base_dir then some base_dir else none

-- the loop of `VisitAll` into a map
unfoldable pub header_map_from : Assoc Bytes → Assoc Bytes → Assoc Bytes
header_map_from acc [] = acc
header_map_from acc ((key, value) ∷ rest) = header_map_from (insert key value acc) rest

module _ {F : Type 0} (host : Host F) where
  unfoldable pub sanitize_content_type : Bytes → Bytes
  unfolding replace_byte
  sanitize_content_type content_type =
      let name = host.trim_space (cut_at b';' content_type) in
      let name = replace_byte b'/' b'_' name in
      let name = replace_byte b'+' b'_' name in
      let name = replace_byte b'.' b'_' name in if is_empty name then codes "unknown" else name

  -- the content type for the file name
  unfoldable pub logged_type : Bytes → Bytes
  logged_type accept =
      if is_empty accept || equal accept (codes "*/*")
      then codes "application/json"
      else host.trim_space (cut_at b';' (cut_at b',' accept))

  -- a body: its JSON, or else its text
  unfoldable pub logged_body : Bytes → Json F
  unfolding json_or_text
  logged_body body = if is_empty body then str [] else json_or_text host body

  -- the request of the record; `id` and `time` are the clock's
  unfoldable pub logged_request : Bytes → Bytes → Exchange → RequestData F
  unfolding header_map_from logged_body
  logged_request id time exchange = record {
    request_id = id;
    timestamp = time;
    method = exchange.method;
    url = exchange.request_uri;
    headers = header_map_from [] exchange.request_headers;
    body = logged_body exchange.post_body;
    mock_id = [];
  }

module _ {F : Type 0} (host : Host F) (disk : Disk) where
  -- the response object of the record
  abbrev pub logged_response : Bytes → Bytes → Exchange → Assoc (Json F)
  logged_response id time exchange =
      response_fields host disk (logged_request host id time exchange) exchange.status_code
        (header_map_from [] exchange.response_headers) (logged_body host exchange.response_body)
        (host.of_int (pos 0))

  abbrev pub logged_record : Bytes → Bytes → Exchange → Json F
  logged_record id time exchange =
      record_json host (request_fields host (logged_request host id time exchange))
        (logged_response id time exchange)

  unfoldable pub file_name : Bytes → Bytes
  unfolding sanitize_content_type logged_type
  file_name accept =
      sanitize_content_type host (logged_type host accept)
      ++ (codes "_" ++ (disk.file_time ++ (codes "_" ++ (disk.random_hex ++ codes ".json"))))

  -- The result is the file and the bytes that were written.
  unfoldable pub log_not_found : Bytes → Bytes → Bytes → Exchange → Result (Bytes × Bytes)
  unfolding logged_request file_name
  log_not_found base_dir id time exchange =
      or_error marshal_failed (host.marshal_indent (logged_record id time exchange))
      >>= written_to host disk base_dir (disk.join base_dir (file_name exchange.accept))
