-- ===== src/Proxy/Relay.antt =====
-- pkg/proxy/handler.go: `handleSSEStreaming`, from the first byte of the body on: the bytes that are
-- sent on to the client and the events that are kept for the record.
pub mod Replay
pub mod Events
pub mod Chunked
pub mod Stuttered
use auto_mock_tools.Prelude.{
  ℕ, ◌+◌, Bool, true, false, ◌&&◌, List, [], ◌∷◌, ◌++◌, ltb, if◌then◌else◌, Bytes, codes, length,
  is_empty, has_prefix, drop, ◌==◌, Assoc,
}
use auto_mock_tools.Json.{Json, num, obj, fields}
use auto_mock_tools.Host.{Host}
use auto_mock_tools.Recorder.{split, json_or_text}

-- `line_num` counts the lines, `current` is the buffer of the event that is being read, and `sent`
-- what was written to the client.
pub record RelayState (F : Type 0) : Type 0 where
  pub line_num : ℕ
  pub current : Bytes
  pub events : List (Json F)
  pub sent : Bytes

abbrev pub relay_start : {F : Type 0} → RelayState F
relay_start = record { line_num = 0; current = []; events = []; sent = [] }

-- `strings.TrimRight(line, "\r")`
trim_right_cr : Bytes → Bytes
trim_right_cr [] = []
trim_right_cr (c ∷ line) =
    let rest = trim_right_cr line in if is_empty rest && (c == b'\r') then [] else c ∷ rest

-- `clock n` is the time since the start when line `n` is read.
module _ {F : Type 0} (host : Host F) (clock : ℕ → F) where
  unfoldable pub timed_event : F → Bytes → Json F
  unfolding json_or_text
  timed_event elapsed line = obj (
      fields
        ((codes "data", json_or_text host (drop 6 line)) ∷ (codes "timestamp", num elapsed) ∷ []))

  -- the loop over the lines of one event
  unfoldable pub data_lines_from : F → List (Json F) → List Bytes → List (Json F)
  unfolding timed_event
  data_lines_from elapsed events [] = events
  data_lines_from elapsed events (line ∷ lines) =
      if has_prefix (codes "data: ") line
      then data_lines_from elapsed (events ++ timed_event elapsed line ∷ []) lines
      else data_lines_from elapsed events lines

  -- one line: sent on, kept, and an empty line ends the event
  unfoldable pub relay_line : RelayState F → Bytes → RelayState F
  unfolding data_lines_from split
  relay_line s line =
      let n = s.line_num + 1 in
      let current = s.current ++ (line ++ codes "\n") in
      let ends = is_empty line && ltb 1 (length current) in
      record {
        line_num = n;
        current = if ends then [] else current;
        events =
            if ends
            then data_lines_from (clock n) s.events (split b'\n' (host.trim_space current))
            else s.events;
        sent = s.sent ++ (line ++ codes "\n");
      }

  -- the branch of a body that is not chunked, on the lines that the scanner gives
  unfoldable pub relay_lines : RelayState F → List Bytes → RelayState F
  unfolding relay_line
  relay_lines s [] = s
  relay_lines s (line ∷ lines) = relay_lines (relay_line s line) lines

  -- the lines of one chunk; `alone` is `len(lines) == 1`
  relay_pieces : Bool → RelayState F → List Bytes → RelayState F
  unfolding relay_line trim_right_cr
  relay_pieces alone s [] = s
  relay_pieces alone s (piece ∷ pieces) =
      let line = trim_right_cr piece in
      if is_empty line && alone
      then relay_pieces alone s pieces
      else relay_pieces alone (relay_line s line) pieces

  -- the branch of a chunked body, on the data of the chunks that are read whole
  unfoldable pub relay_chunks : RelayState F → List Bytes → RelayState F
  unfolding relay_pieces split
  relay_chunks s [] = s
  relay_chunks s (chunk ∷ chunks) =
      let pieces = split b'\n' chunk in
      relay_chunks (relay_pieces (length pieces == 1) s pieces) chunks
