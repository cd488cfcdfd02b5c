-- ===== src/Tests/Chunking.antt =====
-- Chunked and scanned bodies at concrete inputs.
use auto_mock_tools.Prelude.{
  ℕ, false, zero, suc, ◌≡◌, ◌≢◌, ap, not, ◌&&◌, ◌==◌, keep, length, ◌++◌, refl, [], ◌∷◌, Option,
  none, some, Bytes, codes, has_byte, arith,
}
use auto_mock_tools.Json.{str}
use auto_mock_tools.Host.{Host, ℤ, pos}
use auto_mock_tools.Proxy.Relay.{relay_start, relay_lines}
use auto_mock_tools.Proxy.Chunks.{out_of_fuel, read_chunks}
use auto_mock_tools.Proxy.Chunks.Ends.{read_chunks_ends}
use auto_mock_tools.Proxy.Scan.{scan_lines}
use auto_mock_tools.Proxy.Scan.Lines.{relay_scan_sent}
use auto_mock_tools.Tests.World.{host, codec}
use auto_mock_tools.Tests.Proxying.{line_time}

-- Sizes in tally marks: a mark for each byte, behind a zero.
abbrev pub tally : ℕ → Bytes
tally zero = codes "0"
tally (suc n) = b'1' ∷ tally n

abbrev pub scan_tally : Bytes → Option ℤ
scan_tally [] = none
scan_tally (c ∷ s) = some (pos (length s))

-- The world in which trimming takes all line ends, and every text is the JSON of itself.
abbrev pub drop_ends : Bytes → Bytes
drop_ends = keep (λ c. not (c == b'\n') && not (c == b'\r'))

abbrev one_line_host : Host ℕ
one_line_host = record host {
  codec = record codec { trim_space = drop_ends; unmarshal = λ s. some (str s) };
}

kept_marks : (n : ℕ) → length (drop_ends (tally n ++ codes "\r\n")) ≡ suc n
kept_marks zero = refl
kept_marks (suc n) = ap suc (kept_marks n)

pub tally-one_line : (n : ℕ) → has_byte b'\n' (tally n) ≡ false
unfolding has_byte
tally-one_line zero = refl
tally-one_line (suc n) = tally-one_line n

pub tally_scanned : (n : ℕ) → scan_tally (drop_ends (tally n ++ codes "\r\n")) ≡ some (pos n)
tally_scanned zero = refl
tally_scanned (suc n) = ap (λ k. some (pos k)) (kept_marks n)

-- the encoded chunks, cut off in the second
read_chunks_ends_example :
    (read_chunks one_line_host scan_tally 20 (codes "110\r\nab\r\n1110\r\na")).stop ≢ out_of_fuel
read_chunks_ends_example =
    read_chunks_ends one_line_host scan_tally 20 (codes "110\r\nab\r\n1110\r\na") (omega arith)

relay_scan_sent_example :
    (relay_lines one_line_host line_time relay_start (scan_lines (codes "id: 1\n\n"))).sent
    ≡ codes "id: 1\n\n"
unfolding has_byte
relay_scan_sent_example =
    relay_scan_sent one_line_host line_time (codes "id: 1" ∷ [] ∷ [])
      (record { one_line = refl; no_cr = refl }, (record { one_line = refl; no_cr = refl }, tt))
