-- ===== src/Proxy/Chunks.antt =====
-- pkg/proxy/handler.go: the loop of `handleSSEStreaming` that reads the chunks of a chunked body.
pub mod Ends
pub mod Encoded
use auto_mock_tools.Prelude.{
  ℕ, Bool, zero, suc, List, [], ◌∷◌, ◌==◌, Option, none, some, if◌then◌else◌, ltb, Bytes, length,
  take, drop,
}
use auto_mock_tools.Host.{Host, ℤ, pos, negsuc}

-- Why the loop stopped: `panicked` is `make` with a length that is negative or too large.
pub data Stop : Type 0 where
  no_size_line bad_size last_chunk short_chunk panicked out_of_fuel : Stop

pub record ChunksRead : Type 0 where
  pub chunks : List Bytes
  pub stop : Stop

-- A line with its end, and what is left.
pub record LineRead : Type 0 where
  pub line : Bytes
  pub left : Bytes

abbrev with_byte : ℕ → Option LineRead → Option LineRead
with_byte c none = none
with_byte c (some r) = some (record r { line = c ∷ r.line })

-- `br.ReadString('\n')`; no line is its error
unfoldable pub read_string : Bytes → Option LineRead
read_string [] = none
read_string (c ∷ s) =
    let rest = read_string s in
    if c == b'\n' then some (record { line = c ∷ []; left = s }) else with_byte c rest

-- `br.ReadString('\n')` for its effect: without a line, all is read
abbrev pub skip_string : Option LineRead → Bytes
skip_string none = []
skip_string (some r) = r.left

-- One round of the loop: it stops, or reads a chunk and what follows it.
pub data Round : Type 0 where
  stops : Stop → Round
  reads : Bytes → Bytes → Round

-- The size is read; a chunk that is not read whole is dropped. `makes` is whether `make` allows a
-- length; what is whole in the input is taken to be allowed.
unfoldable pub sized_round : (ℕ → Bool) → Option ℤ → Bytes → Round
unfolding read_string
sized_round makes none left = stops bad_size
sized_round makes (some (negsuc n)) left = stops panicked
sized_round makes (some (pos zero)) left = stops last_chunk
sized_round makes (some (pos (suc n))) left =
    if ltb (length left) (suc n)
    then stops (if makes (suc n) then short_chunk else panicked)
    else reads (take (suc n) left) (skip_string (read_string (drop (suc n) left)))

-- `scan_hex` is `fmt.Sscanf(line, "%x", &chunkSize)`, which takes a sign.
module _ {F : Type 0} (host : Host F) (scan_hex : Bytes → Option ℤ) where
  abbrev pub lined_round : Option LineRead → Round
  lined_round none = stops no_size_line
  lined_round (some r) = sized_round host.makes (scan_hex (host.trim_space r.line)) r.left

  unfoldable pub next_chunk : Bytes → Round
  unfolding read_string sized_round
  next_chunk input = lined_round (read_string input)

  unfoldable pub read_chunks : ℕ → Bytes → ChunksRead
  unfolding next_chunk
  read_chunks zero input = record { chunks = []; stop = out_of_fuel }
  read_chunks (suc fuel) input = elim (next_chunk input) [
    | stops why ↦ record { chunks = []; stop = why }
    | reads chunk left ↦
        let later = read_chunks fuel left in record later { chunks = chunk ∷ later.chunks }
  ]

  -- the loop, on as much fuel as it can use
  abbrev pub chunks_of : Bytes → ChunksRead
  chunks_of input = read_chunks (suc (length input)) input
