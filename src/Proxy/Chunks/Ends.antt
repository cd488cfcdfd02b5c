-- ===== src/Proxy/Chunks/Ends.antt =====
-- The loop over the chunks ends.
use auto_mock_tools.Prelude.{
  ℕ, Bool, ◌⊎◌, subst, zero, suc, ◌≤◌, ◌<◌, ◌≡◌, ◌≢◌, refl, Bool-cases, inl, inr, [], ◌∷◌, ◌==◌,
  Option, none, some, ltb, arith, Bytes, length, length-drop, drop,
}
use auto_mock_tools.Host.{Host, ℤ, pos, negsuc}
use auto_mock_tools.Proxy.Chunks.{
  Stop, out_of_fuel, LineRead, with_byte, read_string, skip_string, Round, stops, reads,
  sized_round, lined_round, next_chunk, read_chunks,
}

-- A line leaves less than there was.
abbrev Shrinks : ℕ → Option LineRead → Type 0
Shrinks n none = Unit
Shrinks n (some r) = suc (length r.left) ≤ n

with_byte-Shrinks : (c n : ℕ) (o : Option LineRead) → Shrinks n o → Shrinks (suc n) (with_byte c o)
with_byte-Shrinks c n none h = tt
with_byte-Shrinks c n (some r) h = omega arith

read_string-Shrinks : (s : Bytes) → Shrinks (length s) (read_string s)
unfolding read_string
read_string-Shrinks [] = tt
read_string-Shrinks (c ∷ s) = elim (Bool-cases (c == b'\n')) [
  | inl end ↦ rw end (omega arith)
  | inr other ↦ rw other (with_byte-Shrinks c (length s) (read_string s) (read_string-Shrinks s))
]

skip_string-shorter : (n : ℕ) (o : Option LineRead) → Shrinks n o → length (skip_string o) ≤ n
skip_string-shorter n none h = omega arith
skip_string-shorter n (some r) h = omega arith

-- A round that reads a chunk leaves less than there was, and a round that stops has its reason.
abbrev Consumes : ℕ → Round → Type 0
Consumes n (stops why) = why ≢ out_of_fuel
Consumes n (reads chunk left) = suc (length left) ≤ n

sized_round-Consumes :
    (makes : ℕ → Bool) (n : ℕ) (size : Option ℤ) (left : Bytes)
    → suc (length left) ≤ n
    → Consumes n (sized_round makes size left)
unfolding sized_round
sized_round-Consumes makes n none left h = λ e. cc
sized_round-Consumes makes n (some (negsuc k)) left h = λ e. cc
sized_round-Consumes makes n (some (pos zero)) left h = λ e. cc
sized_round-Consumes makes n (some (pos (suc k))) left h =
    elim (Bool-cases (ltb (length left) (suc k))) [
      | inl short ↦ elim (Bool-cases (makes (suc k))) [
        | inl made ↦ rw (short, made) (λ e. cc)
        | inr too_large ↦ rw (short, too_large) (λ e. cc)
      ]
      | inr whole ↦
          let behind = drop (suc k) left in
          let shorter =
            skip_string-shorter (length behind) (read_string behind) (read_string-Shrinks behind) in
          rw whole (omega (arith, length-drop (suc k) left))
    ]

module _ {F : Type 0} (host : Host F) (scan_hex : Bytes → Option ℤ) where
  lined_round-Consumes :
      (n : ℕ) (o : Option LineRead) → Shrinks n o → Consumes n (lined_round host scan_hex o)
  lined_round-Consumes n none h = λ e. cc
  lined_round-Consumes n (some r) h = sized_round-Consumes host.makes n _ r.left h

  next_chunk-Consumes : (input : Bytes) → Consumes (length input) (next_chunk host scan_hex input)
  unfolding next_chunk
  next_chunk-Consumes input =
      lined_round-Consumes (length input) (read_string input) (read_string-Shrinks input)

  Round-cases :
      (r : Round)
      → ((why : Stop) × (r ≡ stops why))
        ⊎ ((chunk : Bytes) × (left : Bytes) × (r ≡ reads chunk left))
  Round-cases (stops why) = inl (why, refl)
  Round-cases (reads chunk left) = inr (chunk, left, refl)

  -- The loop over the chunks of a body ends before its fuel does, for every input and every way
  -- to read a size, if the fuel is more than the length of the input.
  pub read_chunks_ends :
      (fuel : ℕ) (input : Bytes)
      → length input < fuel
      → (read_chunks host scan_hex fuel input).stop ≢ out_of_fuel
  unfolding read_chunks
  read_chunks_ends zero input h = λ e. absurd (omega arith)
  read_chunks_ends (suc fuel) input h = elim (Round-cases (next_chunk host scan_hex input)) [
    | inl (why, e) ↦
        let reason = subst (Consumes (length input)) e (next_chunk-Consumes input) in
        rw (read_chunks, e) reason
    | inr (chunk, left, e) ↦
        let fewer : suc (length left) ≤ length input =
          subst (Consumes (length input)) e (next_chunk-Consumes input) in
        rw (read_chunks, e) (read_chunks_ends fuel left (omega arith))
  ]
