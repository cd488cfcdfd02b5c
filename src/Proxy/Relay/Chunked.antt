-- ===== src/Proxy/Relay/Chunked.antt =====
-- The relay of a chunked stream with one event to a chunk.
use mathlib.Core.List.{append_assoc}
use auto_mock_tools.Prelude.{
  ℕ, ◌+◌, ◌≡◌, refl, ap, ◌∙◌, true, false, List, [], ◌∷◌, ◌++◌, ltb, arith, Bytes, codes, length,
  length-append, has_prefix, has_byte, ◌==◌,
}
use auto_mock_tools.Json.{Json}
use auto_mock_tools.Host.{Host}
use auto_mock_tools.Loader.Body.{data_event}
use auto_mock_tools.Recorder.{split, prepend}
use auto_mock_tools.Proxy.Relay.{
  RelayState, timed_event, data_lines_from, relay_line, trim_right_cr, relay_pieces, relay_chunks,
}
use auto_mock_tools.Proxy.Relay.Replay.{data_line, split-no_separator, data_line-one_line}

pub split-line :
    (line s : Bytes)
    → has_byte b'\n' line ≡ false
    → split b'\n' (line ++ b'\n' ∷ s) ≡ line ∷ split b'\n' s
unfolding split prepend has_byte
split-line [] s h = refl
split-line (c ∷ line) s h = ground (arith, split-line line s)

split-data_event :
    (p : Bytes) → has_byte b'\n' p ≡ false → split b'\n' (data_event p) ≡ data_line p ∷ [] ∷ [] ∷ []
unfolding data_event split
split-data_event p h = split-line (data_line p) (codes "\n") (data_line-one_line p h)

trim_right_cr-no_cr : (s : Bytes) → has_byte b'\r' s ≡ false → trim_right_cr s ≡ s
unfolding trim_right_cr has_byte
trim_right_cr-no_cr [] h = refl
trim_right_cr-no_cr (c ∷ s) h = ground (arith, trim_right_cr-no_cr s)

trim_right_cr-nil : trim_right_cr [] ≡ []
unfolding trim_right_cr
trim_right_cr-nil = refl

ends_long :
    (cur p : Bytes) → ltb 1 (length ((cur ++ (data_line p ++ codes "\n")) ++ codes "\n")) ≡ true
ends_long cur p = ground (
  arith,
  length-append (cur ++ (data_line p ++ codes "\n")) (codes "\n"),
  length-append cur (data_line p ++ codes "\n"),
  length-append (data_line p) (codes "\n"),
)

module _ {F : Type 0} (host : Host F) (clock : ℕ → F) where
  abbrev pub state : ℕ → Bytes → List (Json F) → Bytes → RelayState F
  state n current events sent = record {
    line_num = n;
    current = current;
    events = events;
    sent = sent;
  }

  -- the buffer before a chunk is empty, or holds the line end behind the last one
  pub record Buffered (cur p : Bytes) : Type 0 where
    pub trimmed : host.trim_space ((cur ++ (data_line p ++ codes "\n")) ++ codes "\n") ≡ data_line p

  module _ (n : ℕ) (cur : Bytes) (events : List (Json F)) (sent p : Bytes) where
    relay_line-buffered :
        relay_line host clock (state n cur events sent) (data_line p)
        ≡ state
            (n + 1)
            (cur ++ (data_line p ++ codes "\n"))
            events
            (sent ++ (data_line p ++ codes "\n"))
    unfolding relay_line
    relay_line-buffered = refl

    relay_line-ended :
        Buffered cur p
        → has_byte b'\n' p ≡ false
        → relay_line host clock (state n (cur ++ (data_line p ++ codes "\n")) events sent) []
          ≡ state
              (n + 1)
              []
              (events ++ timed_event host clock (clock (n + 1)) (data_line p) ∷ [])
              (sent ++ codes "\n")
    unfolding relay_line data_lines_from has_prefix
    relay_line-ended h one_line =
        rw
          (
            relay_line,
            ends_long cur p,
            h.trimmed,
            split-no_separator b'\n' (data_line p) (data_line-one_line p one_line),
          )
          refl

    relay_line-blank :
        relay_line host clock (state n [] events sent) []
        ≡ state (n + 1) (codes "\n") events (sent ++ codes "\n")
    unfolding relay_line
    relay_line-blank = refl

  relay_pieces-one :
      (s : RelayState F) (piece line : Bytes) (pieces : List Bytes)
      → trim_right_cr piece ≡ line
      → relay_pieces host clock false s (piece ∷ pieces)
        ≡ relay_pieces host clock false (relay_line host clock s line) pieces
  unfolding relay_pieces
  relay_pieces-one s piece [] pieces h = rw (relay_pieces, h) refl
  relay_pieces-one s piece (c ∷ line) pieces h = rw (relay_pieces, h) refl

  relay_pieces-nil : (s : RelayState F) → relay_pieces host clock false s [] ≡ s
  unfolding relay_pieces
  relay_pieces-nil s = refl

  relay_pieces-data_event :
      (s : RelayState F) (p : Bytes)
      → has_byte b'\r' (data_line p) ≡ false
      → relay_pieces host clock false s (data_line p ∷ [] ∷ [] ∷ [])
        ≡ relay_line host clock
            (relay_line host clock (relay_line host clock s (data_line p)) [])
            []
  relay_pieces-data_event s p no_cr =
      relay_pieces-one s (data_line p) (data_line p) ([] ∷ [] ∷ [])
        (trim_right_cr-no_cr (data_line p) no_cr)
      ∙ relay_pieces-one _ [] [] ([] ∷ []) trim_right_cr-nil
      ∙ relay_pieces-one _ [] [] [] trim_right_cr-nil
      ∙ relay_pieces-nil _

  -- the state behind a chunk
  abbrev pub behind : ℕ → List (Json F) → Bytes → Bytes → RelayState F
  behind n events sent p =
      state (n + 1 + 1 + 1) (codes "\n")
        (events ++ timed_event host clock (clock (n + 1 + 1)) (data_line p) ∷ [])
        (sent ++ (data_event p ++ codes "\n"))

  relay_lines-data_event :
      (n : ℕ) (cur : Bytes) (events : List (Json F)) (sent p : Bytes)
      → Buffered cur p
      → has_byte b'\n' p ≡ false
      → relay_line host clock
          (relay_line host clock (relay_line host clock (state n cur events sent) (data_line p)) [])
          []
        ≡ behind n events sent p
  unfolding data_event
  relay_lines-data_event n cur events sent p h one_line =
      let line = data_line p ++ codes "\n" in
      let kept = events ++ timed_event host clock (clock (n + 1 + 1)) (data_line p) ∷ [] in
      ap (λ s. relay_line host clock (relay_line host clock s []) [])
        (relay_line-buffered n cur events sent p)
      ∙ ap (λ s. relay_line host clock s [])
          (relay_line-ended (n + 1) cur events (sent ++ line) p h one_line)
      ∙ relay_line-blank (n + 1 + 1) cur kept ((sent ++ line) ++ codes "\n") p
      ∙ ap (state (n + 1 + 1 + 1) (codes "\n") kept) (simp append_assoc)

  relay_chunks_cons :
      (s : RelayState F) (chunk : Bytes) (pieces chunks : List Bytes)
      → split b'\n' chunk ≡ pieces
      → relay_chunks host clock s (chunk ∷ chunks)
        ≡ relay_chunks host clock (relay_pieces host clock (length pieces == 1) s pieces) chunks
  unfolding relay_chunks
  relay_chunks_cons s chunk pieces chunks h =
      ap
        (λ pieces.
          relay_chunks host clock (relay_pieces host clock (length pieces == 1) s pieces) chunks)
        h

  -- one chunk: its event is kept, and the buffer holds a line end
  pub chunk_step :
      (n : ℕ) (cur : Bytes) (events : List (Json F)) (sent p : Bytes) (chunks : List Bytes)
      → Buffered cur p
      → has_byte b'\n' p ≡ false
      → has_byte b'\r' (data_line p) ≡ false
      → relay_chunks host clock (state n cur events sent) (data_event p ∷ chunks)
        ≡ relay_chunks host clock (behind n events sent p) chunks
  chunk_step n cur events sent p chunks h one_line no_cr =
      relay_chunks_cons (state n cur events sent) (data_event p) (data_line p ∷ [] ∷ [] ∷ []) chunks
        (split-data_event p one_line)
      ∙ ap (λ s. relay_chunks host clock s chunks)
          (relay_pieces-data_event (state n cur events sent) p no_cr
            ∙ relay_lines-data_event n cur events sent p h one_line)
