-- ===== src/Proxy/Scan.antt =====
-- pkg/proxy/handler.go: the loop over `scanner.Scan()` of `handleSSEStreaming`, that is the lines that
-- a `bufio.Scanner` gives; its error is never asked for.
pub mod Lines
use auto_mock_tools.Prelude.{ℕ, List, [], ◌∷◌, ◌==◌, if◌then◌else◌, ltb, Bytes, length, is_empty}
use auto_mock_tools.Recorder.{split}

-- `bufio.MaxScanTokenSize` less the line end
abbrev pub longest_line : ℕ
longest_line = 65535

-- one carriage return at the end of a line is dropped
unfoldable pub drop_cr : Bytes → Bytes
drop_cr [] = []
drop_cr (c ∷ []) = if c == b'\r' then [] else c ∷ []
drop_cr (c ∷ d ∷ line) = c ∷ drop_cr (d ∷ line)

-- The scanner stops at a line that does not fit its buffer; nothing behind the last line end is no
-- line.
unfoldable pub scan_pieces : List Bytes → List Bytes
unfolding drop_cr
scan_pieces [] = []
scan_pieces (piece ∷ []) =
    if is_empty piece
    then []
    else if ltb longest_line (length piece)
    then []
    else drop_cr piece ∷ []
scan_pieces (piece ∷ next ∷ pieces) =
    let later = scan_pieces (next ∷ pieces) in
    if ltb longest_line (length piece) then [] else drop_cr piece ∷ later

unfoldable pub scan_lines : Bytes → List Bytes
unfolding scan_pieces split
scan_lines body = scan_pieces (split b'\n' body)
