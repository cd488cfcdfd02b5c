-- ===== src/Proxy/Chunks/Encoded.antt =====
-- The loop reads back the chunks of an encoded body.
use auto_mock_tools.Prelude.{
  ℕ, Bool, zero, suc, ◌≤◌, ◌<◌, ◌≡◌, refl, ap, ◌∙◌, false, List, [], ◌∷◌, ◌++◌, Option, some, ltb,
  arith, Bytes, codes, length, length-append, take, drop, is_empty, has_byte, All,
}
use auto_mock_tools.Host.{Host, ℤ, pos}
use auto_mock_tools.Proxy.Chunks.{
  last_chunk, ChunksRead, read_string, reads, stops, sized_round, lined_round, next_chunk,
  read_chunks, chunks_of,
}

-- A body in chunks, as HTTP/1.1 encodes it; `hex` writes a size.
module _ (hex : ℕ → Bytes) where
  abbrev encode_chunk : Bytes → Bytes → Bytes
  encode_chunk chunk rest =
      hex (length chunk) ++ (codes "\r\n" ++ (chunk ++ (codes "\r\n" ++ rest)))

  abbrev pub encode : List Bytes → Bytes
  encode [] = hex 0 ++ (codes "\r\n" ++ codes "\r\n")
  encode (chunk ∷ chunks) = encode_chunk chunk (encode chunks)

module _ {ℓ} {A : Type ℓ} where
  take-append : (xs ys : List A) → take (length xs) (xs ++ ys) ≡ xs
  take-append [] ys = refl
  take-append (x ∷ xs) ys = ap (◌∷◌ x) (take-append xs ys)

  drop-append : (xs ys : List A) → drop (length xs) (xs ++ ys) ≡ ys
  drop-append [] ys = refl
  drop-append (x ∷ xs) ys = drop-append xs ys

read_string-line :
    (line s : Bytes)
    → has_byte b'\n' line ≡ false
    → read_string (line ++ (codes "\r\n" ++ s))
      ≡ some (record { line = line ++ codes "\r\n"; left = s })
unfolding read_string has_byte
read_string-line [] s h = refl
read_string-line (c ∷ line) s h = ground (arith, read_string-line line s)

whole : (chunk s : Bytes) → ltb (length (chunk ++ s)) (length chunk) ≡ false
whole chunk s = ground (arith, length-append chunk s)

-- A chunk of positive size is read whole.
sized_round-chunk :
    (makes : ℕ → Bool) (chunk rest : Bytes)
    → is_empty chunk ≡ false
    → sized_round makes (some (pos (length chunk))) (chunk ++ (codes "\r\n" ++ rest))
      ≡ reads chunk rest
unfolding sized_round read_string
sized_round-chunk makes [] rest h = cc
sized_round-chunk makes (c ∷ chunk) rest h =
    rw
      (
        sized_round,
        whole (c ∷ chunk) (codes "\r\n" ++ rest),
        take-append chunk (codes "\r\n" ++ rest),
        drop-append chunk (codes "\r\n" ++ rest),
      )
      refl

module _ {F : Type 0} (host : Host F) (scan_hex : Bytes → Option ℤ) (hex : ℕ → Bytes) where
  -- Sizes are written on one line, and read back.
  pub record IsHex : Type 0 where
    pub one_line : (n : ℕ) → has_byte b'\n' (hex n) ≡ false
    pub scanned : (n : ℕ) → scan_hex (host.trim_space (hex n ++ codes "\r\n")) ≡ some (pos n)

  next_chunk-sized :
      (n : ℕ) (s : Bytes)
      → IsHex
      → next_chunk host scan_hex (hex n ++ (codes "\r\n" ++ s))
        ≡ sized_round host.makes (some (pos n)) s
  unfolding next_chunk
  next_chunk-sized n s h =
      ap (lined_round host scan_hex) (read_string-line (hex n) s (h.one_line n))
      ∙ ap (λ size. sized_round host.makes size s) (h.scanned n)

  next_chunk-last : IsHex → next_chunk host scan_hex (encode hex []) ≡ stops last_chunk
  unfolding sized_round
  next_chunk-last h = next_chunk-sized 0 (codes "\r\n") h

  next_chunk-chunk :
      (chunk : Bytes) (chunks : List Bytes)
      → IsHex
      → is_empty chunk ≡ false
      → next_chunk host scan_hex (encode hex (chunk ∷ chunks)) ≡ reads chunk (encode hex chunks)
  next_chunk-chunk chunk chunks h ne =
      next_chunk-sized (length chunk) (chunk ++ (codes "\r\n" ++ encode hex chunks)) h
      ∙ sized_round-chunk host.makes chunk (encode hex chunks) ne

  read_chunks-encode :
      (fuel : ℕ) (chunks : List Bytes)
      → IsHex
      → All (λ (chunk : Bytes). is_empty chunk ≡ false) chunks
      → length chunks < fuel
      → read_chunks host scan_hex fuel (encode hex chunks)
        ≡ record { chunks = chunks; stop = last_chunk }
  unfolding read_chunks
  read_chunks-encode zero chunks h ne enough = absurd (omega arith)
  read_chunks-encode (suc fuel) [] h ne enough = rw (read_chunks, next_chunk-last h) refl
  read_chunks-encode (suc fuel) (chunk ∷ chunks) h ne enough =
      rw (read_chunks, next_chunk-chunk chunk chunks h ne.0)
        (ap (λ (r : ChunksRead). record r { chunks = chunk ∷ r.chunks })
          (read_chunks-encode fuel chunks h ne.1 (omega arith)))

  length-encode : (chunks : List Bytes) → length chunks ≤ length (encode hex chunks)
  length-encode [] = omega arith
  length-encode (chunk ∷ chunks) = omega (
    arith,
    length-append (hex (length chunk))
        (codes "\r\n" ++ (chunk ++ (codes "\r\n" ++ encode hex chunks))),
    length-append chunk (codes "\r\n" ++ encode hex chunks),
    length-encode chunks,
  )

  -- A body in non-empty chunks, each behind its size and before a line end, and the last chunk
  -- behind them, is read back as these chunks, if sizes are written on one line and Sscanf reads
  -- them back.
  pub chunks_of-encode :
      (chunks : List Bytes)
      → IsHex
      → All (λ (chunk : Bytes). is_empty chunk ≡ false) chunks
      → chunks_of host scan_hex (encode hex chunks) ≡ record { chunks = chunks; stop = last_chunk }
  chunks_of-encode chunks h ne =
      read_chunks-encode (suc (length (encode hex chunks))) chunks h ne
        (omega (arith, length-encode chunks))
