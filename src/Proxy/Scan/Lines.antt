-- ===== src/Proxy/Scan/Lines.antt =====
-- A body of whole lines through the scanner and the relay.
use mathlib.Core.List.{append-nil, append_assoc}
use auto_mock_tools.Prelude.{
  ℕ, ◌≡◌, refl, sym, ap, ◌∙◌, false, Bool-cases, inl, inr, List, [], ◌∷◌, ◌++◌, ltb, arith,
  if◌then◌else◌, ◌==◌, Bytes, codes, length, has_byte, All,
}
use auto_mock_tools.Host.{Host}
use auto_mock_tools.Recorder.{split, prepend}
use auto_mock_tools.Proxy.Relay.{RelayState, relay_start, relay_line, relay_lines}
use auto_mock_tools.Proxy.Relay.Chunked.{split-line}
use auto_mock_tools.Proxy.Scan.{longest_line, drop_cr, scan_pieces, scan_lines}

-- the bytes of whole lines
abbrev pub joined : List Bytes → Bytes
joined [] = []
joined (line ∷ lines) = line ++ b'\n' ∷ joined lines

-- the lines before the first that does not fit
abbrev pub fitting : List Bytes → List Bytes
fitting [] = []
fitting (line ∷ lines) = if ltb longest_line (length line) then [] else line ∷ fitting lines

pub record IsLine (line : Bytes) : Type 0 where
  pub one_line : has_byte b'\n' line ≡ false
  pub no_cr : has_byte b'\r' line ≡ false

drop_cr-no_cr : (s : Bytes) → has_byte b'\r' s ≡ false → drop_cr s ≡ s
unfolding drop_cr has_byte
drop_cr-no_cr [] h = refl
drop_cr-no_cr (c ∷ []) h = ground arith
drop_cr-no_cr (c ∷ d ∷ s) h = ap (◌∷◌ c) (drop_cr-no_cr (d ∷ s) (ground arith))

-- a split has a first piece
split_cons :
    (sep : ℕ) (s : Bytes) → (piece : Bytes) × (pieces : List Bytes) × (split sep s ≡ piece ∷ pieces)
unfolding split prepend
split_cons sep [] = ([], [], refl)
split_cons sep (c ∷ s) = elim (Bool-cases (c == sep)) [
  | inl same ↦ rw same ([], split sep s, refl)
  | inr other ↦
      let (piece, pieces, e) = split_cons sep s in rw other (c ∷ piece, pieces, ap (prepend c) e)
]

scan_pieces_step :
    (line : Bytes) (s : Bytes)
    → has_byte b'\r' line ≡ false
    → scan_pieces (line ∷ split b'\n' s)
      ≡ (if ltb longest_line (length line) then [] else line ∷ scan_pieces (split b'\n' s))
unfolding scan_pieces
scan_pieces_step line s no_cr =
    let (piece, pieces, e) = split_cons b'\n' s in
    rw (e, scan_pieces, drop_cr-no_cr line no_cr) refl

pub scan_lines-joined :
    (lines : List Bytes) → All IsLine lines → scan_lines (joined lines) ≡ fitting lines
unfolding scan_lines scan_pieces split
scan_lines-joined [] h = refl
scan_lines-joined (line ∷ lines) h =
    ap scan_pieces (split-line line (joined lines) h.0.one_line)
    ∙ scan_pieces_step line (joined lines) h.0.no_cr
    ∙ ap (λ later. if ltb longest_line (length line) then [] else line ∷ later)
        (scan_lines-joined lines h.1)

module _ {F : Type 0} (host : Host F) (clock : ℕ → F) where
  relay_line_sent :
      (s : RelayState F) (line : Bytes)
      → (relay_line host clock s line).sent ≡ s.sent ++ (line ++ codes "\n")
  unfolding relay_line
  relay_line_sent s line = refl

  relay_lines_sent :
      (s : RelayState F) (lines : List Bytes)
      → (relay_lines host clock s lines).sent ≡ s.sent ++ joined lines
  unfolding relay_lines
  relay_lines_sent s [] = sym (append-nil s.sent)
  relay_lines_sent s (line ∷ lines) =
      relay_lines_sent (relay_line host clock s line) lines
      ∙ ap (λ t. t ++ joined lines) (relay_line_sent s line)
      ∙ append_assoc s.sent (line ++ codes "\n") (joined lines)
      ∙ ap (◌++◌ s.sent) (append_assoc line (codes "\n") (joined lines))

  -- A body of whole lines that holds no carriage return is sent on unchanged up to the first line
  -- of more than 65535 bytes, and nothing of it from that line on; without such a line all of it
  -- is sent on.
  pub relay_scan_sent :
      (lines : List Bytes)
      → All IsLine lines
      → (relay_lines host clock relay_start (scan_lines (joined lines))).sent
        ≡ joined (fitting lines)
  relay_scan_sent lines h =
      relay_lines_sent relay_start (scan_lines (joined lines))
      ∙ ap joined (scan_lines-joined lines h)
