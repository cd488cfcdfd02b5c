-- ===== src/Tests/World.antt =====
-- A world for the examples: numbers for `float64`, maps visited in their own order, and a directory
-- with one folder, one mock file in it and one file that is no JSON.
use mathlib.Core.List.Permᴰ
use Prim.Native.Nat.{◌*◌}
use auto_mock_tools.Prelude.{
  ℕ, ◌+◌, ◌-◌, ltb, true, false, List, [], ◌∷◌, Option, none, some, if◌then◌else◌, refl, Bytes,
  codes, equal,
}
use auto_mock_tools.Ascii.{to_lower_ascii_simple, trim_space_ascii}
use auto_mock_tools.Json.{Json, num, str, obj, fields}
use auto_mock_tools.Host.{Host, ℤ, pos, negsuc, Float, Codec, Range, FileSystem, DirEntry}
use auto_mock_tools.Scenario.Types.{Externals, ScenarioDefinition}

abbrev of_integer : ℤ → ℕ
of_integer (pos n) = n
of_integer (negsuc n) = 0

abbrev pub numbers : Float ℕ
numbers = record {
  zero = 0;
  one = 1;
  two = 2;
  second = 1;
  add = λ a b. a + b;
  sub = λ a b. a - b;
  mul = λ a b. a * b;
  div = λ a b. a;
  lt = ltb;
  to_int = pos;
  of_int = of_integer;
  lt-zero-zero = refl;
}

abbrev pub user_record : Json ℕ
user_record = obj (
    fields (
      (
        codes "request",
        obj (
            fields (
              (codes "method", str (codes "GET"))
              ∷ (codes "url", str (codes "http://localhost/users?page=1"))
              ∷ [])),
      )
      ∷ (
        codes "response",
        obj (
            fields (
              (codes "status_code", num 200)
              ∷ (
                codes "headers",
                obj (
                    fields (
                      (codes "Content-Type", str (codes "application/json; charset=utf-8"))
                      ∷ (codes "X-Mock-Id", str (codes "default"))
                      ∷ [])),
              )
              ∷ (codes "body", str (codes "ann"))
              ∷ (codes "delay", num 2)
              ∷ [])),
      )
      ∷ []))

-- Only texts are marshalled, and only one text is JSON.
abbrev marshal_text : Json ℕ → Option Bytes
marshal_text (str s) = some s
marshal_text _ = none

abbrev parse_text : Bytes → Option (Json ℕ)
parse_text bytes = if equal bytes (codes "{users}") then some user_record else none

abbrev pub codec : Codec ℕ
codec = record {
  to_lower = to_lower_ascii_simple;
  to_upper = λ s. s;
  trim_space = trim_space_ascii;
  marshal = marshal_text;
  marshal_indent = marshal_text;
  unmarshal = parse_text;
  url_path = λ _. some (codes "/users");
  base64_decode = some;
  gunzip = λ _. some (codes "hello");
  base64_encode = λ s. s;
}

abbrev pub in_order : Range
in_order = record { visit = λ _ m. m; visit-perm = λ _ m. Permᴰ.refl m }

abbrev pub host : Host ℕ
host = record {
  float = numbers;
  codec = codec;
  range = in_order;
  makes = λ n. ltb n 281474976710657;
}

abbrev entries_of : Bytes → Option (List DirEntry)
entries_of dir =
    if equal dir (codes "mocks")
    then some (record { name = codes "default"; is_dir = true } ∷ [])
    else if equal dir (codes "mocks/default")
    then some (
        record { name = codes "users.json"; is_dir = false }
        ∷ record { name = codes "notes.json"; is_dir = false }
        ∷ [])
    else none

abbrev contents_of : Bytes → Option Bytes
contents_of path =
    if equal path (codes "mocks/default/users.json")
    then some (codes "{users}")
    else if equal path (codes "mocks/default/notes.json")
    then some (codes "none")
    else if equal path (codes "scenarios.yaml")
    then some (codes "yaml")
    else none

abbrev pub files : FileSystem
files = record {
  missing = λ path. equal path (codes "nowhere");
  read_dir = entries_of;
  read_file = contents_of;
}

abbrev pub login : ScenarioDefinition ℕ
login = record {
  name = codes "login";
  method = codes "POST";
  path = codes "/login";
  filter_body = [];
  response_file = codes "mocks/default/users.json";
  response_delay = some 1;
}

-- A filter is a text, and matches the body that equals it.
abbrev pub externals : Externals ℕ Bytes
externals = record {
  parse_scenarios = λ _. some (login ∷ []);
  from_map = λ _. none;
  is_valid = λ _. true;
  evaluate = equal;
  dir = λ _. [];
  is_abs = λ _. true;
  join_path = λ dir file. file;
}
