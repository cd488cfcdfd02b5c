-- ===== src/Tests/Replaying.antt =====
-- A world in which the record of one stream is read back.
use auto_mock_tools.Prelude.{
  ℕ, ◌≡◌, refl, sym, ap, inr, if◌then◌else◌, List, [], ◌∷◌, Option, some, Bytes, codes, equal,
  has_byte, All,
}
use auto_mock_tools.Ascii.{trim_space_ascii, is_space}
use auto_mock_tools.Json.{Json, str, num, arr, obj, items, fields}
use auto_mock_tools.Host.{Host, pos}
use auto_mock_tools.Loader.Body.{is_done}
use auto_mock_tools.Recorder.{request_fields, response_fields, record_json}
use auto_mock_tools.Recorder.Replay.{RoundTrips}
use auto_mock_tools.Proxy.Relay.Replay.{IsPayload}
use auto_mock_tools.Tests.World.{host, codec}
use auto_mock_tools.Tests.Recording.{disk, request, stream_headers}

-- the events that the relay keeps of the stream of the example
abbrev kept : List (Json ℕ)
kept = obj (fields ((codes "data", str (codes "hello")) ∷ (codes "timestamp", num 2) ∷ [])) ∷ []

abbrev pub kept_record : Json ℕ
kept_record =
    record_json host (request_fields host request)
      (response_fields host disk request (pos 200) stream_headers (arr (items kept)) 3)

-- The record is the JSON value of "{}", and every other text the value of itself.
abbrev pub reads : Bytes → Option (Json ℕ)
reads bytes = if equal bytes (codes "{}") then some kept_record else some (str bytes)

abbrev pub kept_host : Host ℕ
kept_host = record host {
  codec = record codec { marshal_indent = λ _. some (codes "{}"); unmarshal = reads };
}

pub kept_host-RoundTrips : RoundTrips kept_host kept_record
unfolding equal
kept_host-RoundTrips bytes marshalled = let e : codes "{}" ≡ bytes = cc in ap reads (sym e)

pub hello-IsPayload : All (IsPayload kept_host) (codes "hello" ∷ [])
unfolding has_byte trim_space_ascii is_space equal is_done
hello-IsPayload = (
  record {
    one_line = refl;
    trimmed = refl;
    canonical = inr (str (codes "hello"), refl, refl, refl);
  },
  tt,
)

abbrev pub same_time : ℕ → ℕ
same_time line = line
