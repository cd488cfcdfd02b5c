-- ===== src/Tests/Proxying.antt =====
-- The proxy at concrete inputs.
use auto_mock_tools.Prelude.{
  ℕ, refl, inl, inr, if◌then◌else◌, List, [], ◌∷◌, none, some, Bytes, codes, equal, has_byte, All,
}
use auto_mock_tools.Ascii.{trim_space_ascii, is_space}
use auto_mock_tools.Host.{Host, pos}
use auto_mock_tools.Json.{str}
use auto_mock_tools.Loader.Body.{is_done}
use auto_mock_tools.Recorder.{Upstream}
use auto_mock_tools.Proxy.Relay.Replay.{IsPayload}
use auto_mock_tools.Proxy.Forward.{Incoming, KeepsBack, prepare_request, prepare_request-KeepsBack}
use auto_mock_tools.Tests.World.{host, codec}

-- The world in which every text but the end marker is the JSON of itself.
abbrev pub text_host : Host ℕ
text_host = record host {
  codec = record codec { unmarshal = λ s. if equal s (codes "[DONE]") then none else some (str s) };
}

abbrev pub line_time : ℕ → ℕ
line_time line = line

abbrev payloads : List Bytes
payloads = codes "hello" ∷ codes "[DONE]" ∷ []

payloads-IsPayload : All (IsPayload text_host) payloads
unfolding has_byte trim_space_ascii is_space equal is_done
payloads-IsPayload = (
  record {
    one_line = refl;
    trimmed = refl;
    canonical = inr (str (codes "hello"), refl, refl, refl);
  },
  (record { one_line = refl; trimmed = refl; canonical = inl (refl, refl) }, tt),
)

abbrev pub incoming : Incoming
incoming = record {
  method = codes "GET";
  path = codes "/users";
  query = codes "page=1";
  url = codes "http://proxy/users?page=1";
  headers = (codes "Host", codes "proxy") ∷ (codes "Accept", codes "*/*") ∷ [];
  body = [];
  mock_id = [];
  accept = [];
}

prepare_request-KeepsBack_example :
    All (KeepsBack host) (prepare_request host (codes "http://upstream") incoming)
prepare_request-KeepsBack_example =
    prepare_request-KeepsBack host (codes "http://upstream") incoming

abbrev pub answered : Upstream
answered = record {
  status_code = pos 200;
  headers = (codes "Connection", codes "close") ∷ (codes "Etag", codes "7") ∷ [];
  peek = λ _. [];
  body = codes "ann";
}
