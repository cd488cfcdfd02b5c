-- ===== src/Proxy/Relay/Stuttered.antt =====
-- A chunked stream with one event to a chunk, from its bytes to what the client gets and to the events
-- that are recorded.
use mathlib.Core.List.{append-nil, append_assoc}
use auto_mock_tools.Prelude.{
  ℕ, ◌+◌, ◌≡◌, refl, sym, ap, ◌∙◌, false, List, [], ◌∷◌, ◌++◌, map, Option, Bytes, codes, has_byte,
  All, All-map, is_empty,
}
use auto_mock_tools.Json.{Json}
use auto_mock_tools.Host.{Host, ℤ}
use auto_mock_tools.Loader.Body.{data_event, sse_body_from}
use auto_mock_tools.Proxy.Relay.{RelayState, relay_start, timed_event, relay_chunks}
use auto_mock_tools.Proxy.Relay.Replay.{
  data_line, data_line-no_cr, IsData, replayed_event, replay_of, sse_body_from-append,
  chunk-timed_event,
}
use auto_mock_tools.Proxy.Relay.Chunked.{state, Buffered, behind, chunk_step}
use auto_mock_tools.Proxy.Chunks.{chunks_of}
use auto_mock_tools.Proxy.Chunks.Encoded.{encode, IsHex, chunks_of-encode}

-- the bytes of a stream in which each event has one empty line too many
abbrev pub stuttered : List Bytes → Bytes
stuttered [] = []
stuttered (p ∷ ps) = (data_event p ++ codes "\n") ++ stuttered ps

pub data_event-ne_nil :
    (ps : List Bytes) → All (λ (c : Bytes). is_empty c ≡ false) (map data_event ps)
unfolding data_event
data_event-ne_nil [] = tt
data_event-ne_nil (p ∷ ps) = (refl, data_event-ne_nil ps)

module _ {F : Type 0} (host : Host F) (clock : ℕ → F) where
  -- a payload of a chunk: it holds no carriage return, and trimming takes the line end behind the
  -- chunk before it too
  pub record IsChunked (p : Bytes) : Type 0 where
    pub data_text : IsData host p
    pub no_cr : has_byte b'\r' p ≡ false
    pub trimmed_behind :
        host.trim_space ((codes "\n" ++ (data_line p ++ codes "\n")) ++ codes "\n") ≡ data_line p

  first-Buffered : (p : Bytes) → IsChunked p → Buffered host clock [] p
  first-Buffered p h = record {
    trimmed =
        ap host.trim_space (append_assoc (data_line p) (codes "\n") (codes "\n"))
        ∙ h.data_text.trimmed;
  }

  pub record RelayedChunks (ps : List Bytes) (events : List (Json F)) (sent : Bytes)
      (s : RelayState F) : Type 0 where
    pub body : sse_body_from host [] s.events ≡ sse_body_from host [] events ++ replay_of host ps
    pub sent_on : s.sent ≡ sent ++ stuttered ps

  RelayedChunks-cons :
      (n : ℕ) (events : List (Json F)) (sent p : Bytes) (ps : List Bytes) (s : RelayState F)
      → RelayedChunks ps
          (behind host clock n events sent p).events
          (behind host clock n events sent p).sent
          s
      → RelayedChunks (p ∷ ps) events sent s
  RelayedChunks-cons n events sent p ps s later =
      let e = timed_event host clock (clock (n + 1 + 1)) (data_line p) in
      record {
        body =
            later.body
            ∙ ap (λ b. b ++ replay_of host ps)
                (sse_body_from-append host events e []
                  ∙ ap (◌++◌ (sse_body_from host [] events))
                      (chunk-timed_event host (clock (n + 1 + 1)) clock p))
            ∙ append_assoc (sse_body_from host [] events) (replayed_event host p)
                (replay_of host ps);
        sent_on = later.sent_on ∙ append_assoc sent (data_event p ++ codes "\n") (stuttered ps);
      }

  relay_chunks_nil : (s : RelayState F) → relay_chunks host clock s [] ≡ s
  unfolding relay_chunks
  relay_chunks_nil s = refl

  relay_chunks-Relayed :
      (n : ℕ) (cur : Bytes) (events : List (Json F)) (sent : Bytes) (ps : List Bytes)
      → All IsChunked ps
      → All (Buffered host clock cur) ps
      → RelayedChunks ps events sent
          (relay_chunks host clock (state host clock n cur events sent) (map data_event ps))
  relay_chunks-Relayed n cur events sent [] h buffered =
      rw relay_chunks_nil (record { body = sym (append-nil _); sent_on = sym (append-nil sent) })
  relay_chunks-Relayed n cur events sent (p ∷ ps) h buffered =
      rw
        (chunk_step host clock n cur events sent p (map data_event ps) buffered.0
          h.0.data_text.one_line (data_line-no_cr p h.0.no_cr))
        (RelayedChunks-cons n events sent p ps _ (
          relay_chunks-Relayed (n + 1 + 1 + 1) (codes "\n") _ _ ps h.1
            (All-map (λ q k. record { trimmed = k.trimmed_behind }) ps h.1)))

  -- A stream of data lines, each with an empty line behind it in a chunk of its own, reaches the
  -- client with one empty line too many behind each event, while the events that are kept for the
  -- record replay, without timing, to what the payloads come back as, if no payload holds a line
  -- end or a carriage return, trimming takes the line ends around each data line and no more, and
  -- sizes are written on one line and read back by Sscanf.
  pub relay_chunks_stutters :
      (scan_hex : Bytes → Option ℤ) (hex : ℕ → Bytes) (ps : List Bytes)
      → IsHex host scan_hex hex
      → All IsChunked ps
      → RelayedChunks ps [] [] (
          relay_chunks host clock relay_start
            (chunks_of host scan_hex (encode hex (map data_event ps))).chunks)
  relay_chunks_stutters scan_hex hex ps sizes h =
      rw (chunks_of-encode host scan_hex hex (map data_event ps) sizes (data_event-ne_nil ps))
        (relay_chunks-Relayed 0 [] [] [] ps h (All-map first-Buffered ps h))
