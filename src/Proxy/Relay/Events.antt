-- ===== src/Proxy/Relay/Events.antt =====
-- The events that the relay keeps of a stream, as StreamTo writes them with timing.
use auto_mock_tools.Prelude.{
  ℕ, ◌+◌, ◌≡◌, ◌∙◌, refl, inl, inr, List, [], ◌∷◌, ◌++◌, Bytes, lookup, equal, All, All-append,
}
use auto_mock_tools.Json.{Json, str}
use auto_mock_tools.Host.{Host}
use auto_mock_tools.Loader.Body.{data_event, is_done, sse_events_of}
use auto_mock_tools.Handlers.Stream.{stream_to, written}
use auto_mock_tools.Handlers.Stream.Replay.{IsEvent, stream_to_sse_body}
use auto_mock_tools.Recorder.{json_or_text}
use auto_mock_tools.Proxy.Relay.{relay_start, relay_lines, timed_event}
use auto_mock_tools.Proxy.Relay.Replay.{
  data_line, lines_of, stream_of, IsPayload, IsPayload-IsData, between, relay_payload,
  relay_lines_replays,
}

module _ {F : Type 0} (host : Host F) (clock : ℕ → F) where
  timed_event-IsEvent :
      (elapsed : F) (p : Bytes)
      → IsPayload host p
      → IsEvent host (timed_event host clock elapsed (data_line p))
  unfolding timed_event json_or_text is_done lookup equal
  timed_event-IsEvent elapsed p h = elim h.canonical [
    | inl (done, no_json) ↦ rw (json_or_text, no_json) (str p, refl, inl (rw done refl))
    | inr (j, read, marshalled, _) ↦ rw (json_or_text, read) (j, refl, inr (p, marshalled))
  ]

  relay_lines-IsEvent :
      (n : ℕ) (events : List (Json F)) (sent : Bytes) (ps : List Bytes)
      → All (IsPayload host) ps
      → All (IsEvent host) events
      → All
          (IsEvent host)
          (relay_lines host clock (between host clock n events sent) (lines_of ps)).events
  unfolding relay_lines
  relay_lines-IsEvent n events sent [] h k = k
  relay_lines-IsEvent n events sent (p ∷ ps) h k =
      let e = timed_event host clock (clock (n + 1 + 1)) (data_line p) in
      rw (relay_payload host clock n events sent p (lines_of ps) (IsPayload-IsData host p h.0)) (
        relay_lines-IsEvent (n + 1 + 1) (events ++ e ∷ []) (sent ++ data_event p) ps h.1 (
          All-append (IsEvent host) events (e ∷ []) k
            (timed_event-IsEvent (clock (n + 1 + 1)) p h.0, tt)))

  -- The events that are kept for the record are streamed with timing as the same bytes, at every
  -- jitter scale.
  pub relay_lines_streams :
      (scale : F) (ps : List Bytes)
      → All (IsPayload host) ps
      → written (
          stream_to host scale
            (sse_events_of host (relay_lines host clock relay_start (lines_of ps)).events))
        ≡ stream_of ps
  relay_lines_streams scale ps h =
      stream_to_sse_body host scale _ (relay_lines-IsEvent 0 [] [] ps h tt)
      ∙ (relay_lines_replays host clock ps h).1
