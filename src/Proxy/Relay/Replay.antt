-- ===== src/Proxy/Relay/Replay.antt =====
-- A relayed stream of data lines reaches the client unchanged, and its record replays to the same
-- bytes.
use mathlib.Core.List.{append-nil, append_assoc}
use auto_mock_tools.Prelude.{
  ℕ, suc, ◌+◌, ◌≡◌, ◌⊎◌, inl, inr, refl, sym, ap, ◌∙◌, true, false, List, [], ◌∷◌, ◌++◌, ltb, arith,
  none, some, Bytes, codes, length, has_prefix, has_byte, lookup, equal, All, if◌then◌else◌,
}
use auto_mock_tools.Json.{Json}
use auto_mock_tools.Host.{Host}
use auto_mock_tools.Loader.Body.{data_event, is_done, marshal_event, sse_chunk, sse_body_from}
use auto_mock_tools.Recorder.{split, prepend, json_or_text}
use auto_mock_tools.Proxy.Relay.{
  RelayState, relay_start, timed_event, data_lines_from, relay_line, relay_lines,
}

abbrev pub data_line : Bytes → Bytes
data_line payload = codes "data: " ++ payload

-- the lines of a stream with these payloads, and its bytes
abbrev pub lines_of : List Bytes → List Bytes
lines_of [] = []
lines_of (p ∷ ps) = data_line p ∷ [] ∷ lines_of ps

abbrev pub stream_of : List Bytes → Bytes
stream_of [] = []
stream_of (p ∷ ps) = data_event p ++ stream_of ps

pub split-no_separator : (sep : ℕ) (s : Bytes) → has_byte sep s ≡ false → split sep s ≡ s ∷ []
unfolding split prepend has_byte
split-no_separator sep [] h = refl
split-no_separator sep (c ∷ s) h = ground (arith, split-no_separator sep s)

long_enough : (n : ℕ) → ltb 1 (suc (suc n)) ≡ true
long_enough n = ground arith

pub data_line-one_line :
    (p : Bytes) → has_byte b'\n' p ≡ false → has_byte b'\n' (data_line p) ≡ false
unfolding has_byte
data_line-one_line p h = h

pub data_line-no_cr : (p : Bytes) → has_byte b'\r' p ≡ false → has_byte b'\r' (data_line p) ≡ false
unfolding has_byte
data_line-no_cr p h = h

ends_event : (p : Bytes) → ltb 1 (length ((data_line p ++ codes "\n") ++ codes "\n")) ≡ true
ends_event p = long_enough _

line-event :
    (sent p : Bytes) → (sent ++ (data_line p ++ codes "\n")) ++ codes "\n" ≡ sent ++ data_event p
unfolding data_event
line-event sent p = simp append_assoc

module _ {F : Type 0} (host : Host F) where
  -- What a payload comes back as: its JSON value marshalled, or else the text as a JSON string, and
  -- the end marker as itself.
  abbrev pub replayed_event : Bytes → Bytes
  replayed_event p =
      let payload = json_or_text host p in
      if is_done payload then codes "data: [DONE]\n\n" else marshal_event host payload

  abbrev pub replay_of : List Bytes → Bytes
  replay_of [] = []
  replay_of (p ∷ ps) = replayed_event p ++ replay_of ps

  -- A payload on one line, which trimming leaves alone.
  pub record IsData (p : Bytes) : Type 0 where
    pub one_line : has_byte b'\n' p ≡ false
    pub trimmed : host.trim_space (data_line p ++ codes "\n\n") ≡ data_line p

  -- A payload on one line, which trimming leaves alone, and which is the end marker or the text
  -- that its JSON value is marshalled to.
  pub record IsPayload (p : Bytes) : Type 0 where
    pub one_line : has_byte b'\n' p ≡ false
    pub trimmed : host.trim_space (data_line p ++ codes "\n\n") ≡ data_line p
    pub canonical :
        ((p ≡ codes "[DONE]") × (host.unmarshal p ≡ none))
        ⊎ ((j : Json F) × (host.unmarshal p ≡ some j)
            × (host.marshal j ≡ some p)
            × (is_done j ≡ false))

  pub IsPayload-IsData : (p : Bytes) → IsPayload p → IsData p
  IsPayload-IsData p h = record { one_line = h.one_line; trimmed = h.trimmed }

  pub payloads-IsData : (ps : List Bytes) → All IsPayload ps → All IsData ps
  payloads-IsData [] h = tt
  payloads-IsData (p ∷ ps) h = (IsPayload-IsData p h.0, payloads-IsData ps h.1)

  pub chunk-timed_event :
      (elapsed : F) (clock : ℕ → F) (p : Bytes)
      → sse_chunk host (timed_event host clock elapsed (data_line p)) ≡ replayed_event p
  unfolding timed_event sse_chunk lookup equal
  chunk-timed_event elapsed clock p = refl

  replayed_event-payload : (p : Bytes) → IsPayload p → replayed_event p ≡ data_event p
  unfolding marshal_event json_or_text equal is_done data_event
  replayed_event-payload p h = elim h.canonical [
    | inl (done, no_json) ↦ rw (json_or_text, no_json) (rw done refl)
    | inr (j, read, marshalled, other) ↦
        rw (json_or_text, read) (rw (other, marshal_event, marshalled) refl)
  ]

  pub replay_of-stream_of : (ps : List Bytes) → All IsPayload ps → replay_of ps ≡ stream_of ps
  replay_of-stream_of [] h = refl
  replay_of-stream_of (p ∷ ps) h =
      ap (λ chunk. chunk ++ replay_of ps) (replayed_event-payload p h.0)
      ∙ ap (λ bytes. data_event p ++ bytes) (replay_of-stream_of ps h.1)

  pub sse_body_from-append :
      (events : List (Json F)) (e : Json F) (built : Bytes)
      → sse_body_from host built (events ++ e ∷ [])
        ≡ sse_body_from host built events ++ sse_chunk host e
  unfolding sse_body_from
  sse_body_from-append [] e built = refl
  sse_body_from-append (x ∷ events) e built =
      sse_body_from-append events e (built ++ sse_chunk host x)

  module _ (clock : ℕ → F) where
    abbrev pub between : ℕ → List (Json F) → Bytes → RelayState F
    between n events sent = record { line_num = n; current = []; events = events; sent = sent }

    data_lines_of_payload :
        (elapsed : F) (events : List (Json F)) (p : Bytes)
        → IsData p
        → data_lines_from host clock elapsed events
            (split b'\n' (host.trim_space (data_line p ++ codes "\n\n")))
          ≡ events ++ timed_event host clock elapsed (data_line p) ∷ []
    unfolding data_lines_from has_prefix
    data_lines_of_payload elapsed events p h =
        rw (h.trimmed, split-no_separator b'\n' (data_line p) (data_line-one_line p h.one_line))
          refl

    -- the state after a data line
    abbrev amid : ℕ → List (Json F) → Bytes → Bytes → RelayState F
    amid n events sent p = record {
      line_num = n;
      current = data_line p ++ codes "\n";
      events = events;
      sent = sent;
    }

    relay_line-data_line :
        (n : ℕ) (events : List (Json F)) (sent p : Bytes)
        → relay_line host clock (between n events sent) (data_line p)
          ≡ amid (n + 1) events (sent ++ (data_line p ++ codes "\n")) p
    unfolding relay_line
    relay_line-data_line n events sent p = refl

    relay_line-empty :
        (n : ℕ) (events : List (Json F)) (sent p : Bytes)
        → IsData p
        → relay_line host clock (amid n events sent p) []
          ≡ between
              (n + 1)
              (events ++ timed_event host clock (clock (n + 1)) (data_line p) ∷ [])
              (sent ++ codes "\n")
    unfolding relay_line
    relay_line-empty n events sent p h =
        rw (relay_line, ends_event p)
          (ap (λ es. between (n + 1) es (sent ++ codes "\n"))
            (ap
                (λ t.
                  data_lines_from host clock (clock (n + 1)) events
                    (split b'\n' (host.trim_space t)))
                (append_assoc (data_line p) (codes "\n") (codes "\n"))
              ∙ data_lines_of_payload (clock (n + 1)) events p h))

    -- a data line, and the empty line behind it
    pub relay_payload :
        (n : ℕ) (events : List (Json F)) (sent p : Bytes) (lines : List Bytes)
        → IsData p
        → relay_lines host clock (between n events sent) (data_line p ∷ [] ∷ lines)
          ≡ relay_lines host clock
              (between
                (n + 1 + 1)
                (events ++ timed_event host clock (clock (n + 1 + 1)) (data_line p) ∷ [])
                (sent ++ data_event p))
              lines
    unfolding relay_lines
    relay_payload n events sent p lines h =
        ap (λ s. relay_lines host clock (relay_line host clock s []) lines)
          (relay_line-data_line n events sent p)
        ∙ ap (λ s. relay_lines host clock s lines)
            (relay_line-empty (n + 1) events (sent ++ (data_line p ++ codes "\n")) p h)
        ∙ ap
            (λ t.
              relay_lines host clock
                (between (n + 1 + 1)
                  (events ++ timed_event host clock (clock (n + 1 + 1)) (data_line p) ∷ []) t)
                lines)
            (line-event sent p)

    pub record Relayed (ps : List Bytes) (events : List (Json F)) (sent : Bytes) (s : RelayState F)
        : Type 0 where
      pub body : sse_body_from host [] s.events ≡ sse_body_from host [] events ++ replay_of ps
      pub sent_on : s.sent ≡ sent ++ stream_of ps

    relay_lines-Relayed :
        (n : ℕ) (events : List (Json F)) (sent : Bytes) (ps : List Bytes)
        → All IsData ps
        → Relayed ps events sent (relay_lines host clock (between n events sent) (lines_of ps))
    unfolding relay_lines
    relay_lines-Relayed n events sent [] h = record {
      body = sym (append-nil _);
      sent_on = sym (append-nil sent);
    }
    relay_lines-Relayed n events sent (p ∷ ps) h =
        let e = timed_event host clock (clock (n + 1 + 1)) (data_line p) in
        let later =
          relay_lines-Relayed (n + 1 + 1) (events ++ e ∷ []) (sent ++ data_event p) ps h.1 in
        rw (relay_payload n events sent p (lines_of ps) h.0) (record {
          body =
              later.body
              ∙ ap (λ b. b ++ replay_of ps)
                  (sse_body_from-append events e []
                    ∙ ap (◌++◌ (sse_body_from host [] events))
                        (chunk-timed_event (clock (n + 1 + 1)) clock p))
              ∙ append_assoc (sse_body_from host [] events) (replayed_event p) (replay_of ps);
          sent_on = later.sent_on ∙ append_assoc sent (data_event p) (stream_of ps);
        })

    -- A stream of data lines, each followed by an empty line, is sent on unchanged, and its record
    -- replays to what its payloads come back as.
    pub relay_lines_normalizes :
        (ps : List Bytes)
        → All IsData ps
        → ((relay_lines host clock relay_start (lines_of ps)).sent ≡ stream_of ps)
          × (sse_body_from host [] (relay_lines host clock relay_start (lines_of ps)).events
              ≡ replay_of ps)
    unfolding sse_body_from
    relay_lines_normalizes ps h =
        let all = relay_lines-Relayed 0 [] [] ps h in (all.sent_on, all.body)

    -- A stream of data lines, each followed by an empty line, is sent on by the relay of a body
    -- that is not chunked unchanged, and the events it keeps for the record replay, without
    -- timing, to the same bytes, if each payload stands on one line, is left alone by trimming,
    -- and is the end marker or the text that its JSON value is marshalled to.
    pub relay_lines_replays :
        (ps : List Bytes)
        → All IsPayload ps
        → ((relay_lines host clock relay_start (lines_of ps)).sent ≡ stream_of ps)
          × (sse_body_from host [] (relay_lines host clock relay_start (lines_of ps)).events
              ≡ stream_of ps)
    relay_lines_replays ps h =
        let (sent, body) = relay_lines_normalizes ps (payloads-IsData ps h) in
        (sent, body ∙ replay_of-stream_of ps h)
