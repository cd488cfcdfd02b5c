-- ===== src/Handlers/Pool/Invariant.antt =====
-- What a writer holds while its goroutine runs, and what the goroutine has written at its end.
use mathlib.Core.List.{
  Mem, mem-cons_self, mem-cons_of_mem, append_assoc, append-nil, mem-append_left, mem-append_right,
}
use mathlib.Core.Logic.{if_neg, if_pos}
use native.Mathlib.Decide.{ℕ_discrete}
use auto_mock_tools.Prelude.{
  ℕ, zero, suc, ◌≡◌, ◌≢◌, refl, sym, ap, ◌∙◌, subst, List, [], ◌∷◌, ◌++◌, some, length, drop,
  get_elem?, get_elem?-drop, All, All-append, All-split, All-In, In, arith,
}
use auto_mock_tools.Json.{Json}
use auto_mock_tools.Host.{Host}
use auto_mock_tools.Storage.Types.{SseEvent}
use auto_mock_tools.Loader.Body.{sse_body_from, sse_events_of}
use auto_mock_tools.Handlers.Stream.{StreamStep, stream_to, written}
use auto_mock_tools.Handlers.Stream.Replay.{IsEvent, stream_to_sse_body}
use auto_mock_tools.Handlers.Pool.{
  StreamWriter, Stream, System, Point, taken, filled, ready, streaming, cleared, crashed, update,
  new_writer, send_event, advance_from, advance, Serve, advances, puts, Step, serves, gets_new,
  gets_pooled, drops, Reach, start, later,
}
use auto_mock_tools.Handlers.Pool.Owners.{
  writers, owners, Owned, Reach-Owned, others_differ, advance_keeps,
}

module _ {F : Type 0} (host : Host F) where
  -- all that StreamTo does for a response
  abbrev pub whole : StreamWriter F → List StreamStep
  whole w = stream_to host w.jitter_scale w.events

  abbrev pub HoldsAt : Point → StreamWriter F → Stream F → Type 0
  HoldsAt taken w s = s.steps ≡ []
  HoldsAt filled w s = (w.events ≡ s.wanted.events) × (s.steps ≡ [])
  HoldsAt ready w s = (w ≡ s.wanted) × (s.steps ≡ [])
  HoldsAt (streaming left i) w s =
      (w ≡ s.wanted)
      × (length (drop i s.wanted.events) ≡ left)
      × (s.steps ++ stream_to host s.wanted.jitter_scale (drop i s.wanted.events) ≡ whole s.wanted)
  HoldsAt cleared w s = s.steps ≡ whole s.wanted
  HoldsAt crashed w s = ⊥

  -- A goroutine has done the part of its own response that its place says, and its writer holds
  -- its own response from the time when StreamTo starts.
  abbrev pub Holds : (ℕ → StreamWriter F) → Stream F → Type 0
  Holds heap s = HoldsAt s.point (heap s.writer) s

  stream_to_one :
      (scale : F) (e : SseEvent F) (es : List (SseEvent F))
      → stream_to host scale (e ∷ es) ≡ stream_to host scale (e ∷ []) ++ stream_to host scale es
  unfolding stream_to
  stream_to_one scale e es = refl

  stream_to_none : (scale : F) → stream_to host scale [] ≡ []
  unfolding stream_to
  stream_to_none scale = refl

  stream_to_done :
      (scale : F) (es : List (SseEvent F)) → length es ≡ 0 → stream_to host scale es ≡ []
  stream_to_done scale [] h = stream_to_none scale
  stream_to_done scale (e ∷ es) h = ground arith

  pub send_event_lem :
      (w : StreamWriter F) (left i : ℕ) (s : Stream F) (event : SseEvent F)
      → get_elem? w.events i ≡ some event
      → send_event host w left i s ≡ record s {
        point = streaming left (suc i);
        steps = s.steps ++ stream_to host w.jitter_scale (event ∷ []);
      }
  unfolding send_event
  send_event_lem w left i s event h = rw (send_event, h) refl

  send_event-Holds :
      (w : StreamWriter F) (left i : ℕ) (s : Stream F)
      → HoldsAt (streaming (suc left) i) w s
      → HoldsAt (send_event host w left i s).point w (send_event host w left i s)
  send_event-Holds w left i s (e, count, done) =
      let (event, at, rest) = get_elem?-drop i left s.wanted.events count in
      let w_event : get_elem? w.events i ≡ some event =
        ap (λ (v : StreamWriter F). get_elem? v.events i) e ∙ at in
      let left_over : length (drop (suc i) s.wanted.events) ≡ left =
        omega (arith, sym (ap length rest) ∙ count) in
      let steps : (s.steps ++ stream_to host w.jitter_scale (event ∷ []))
            ++ stream_to host s.wanted.jitter_scale (drop (suc i) s.wanted.events)
          ≡ whole s.wanted =
        ap
          (λ (v : StreamWriter F).
            (s.steps ++ stream_to host v.jitter_scale (event ∷ []))
            ++ stream_to host s.wanted.jitter_scale (drop (suc i) s.wanted.events))
          e
        ∙ append_assoc s.steps _ _
        ∙ ap (λ xs. s.steps ++ xs)
            (sym (stream_to_one s.wanted.jitter_scale event _)
              ∙ ap (stream_to host s.wanted.jitter_scale) (sym rest))
        ∙ done in
      subst (λ r. HoldsAt r.point w r) (sym (send_event_lem w left i s event w_event))
        (e, left_over, steps)

  advance_from-Holds :
      (p : Point) (w : StreamWriter F) (s : Stream F)
      → p ≢ cleared
      → p ≢ crashed
      → HoldsAt p w s
      → HoldsAt
          (advance_from host p w s).1.point
          (advance_from host p w s).0
          (advance_from host p w s).1
  unfolding advance_from
  advance_from-Holds taken w s _ _ h = (refl, h)
  advance_from-Holds filled w s _ _ (e, none_done) =
      (ap (λ es. record { events = es; jitter_scale = s.wanted.jitter_scale }) e, none_done)
  advance_from-Holds ready w s _ _ (e, none_done) = (
    e,
    ap (λ (v : StreamWriter F). length v.events) (sym e),
    ap (λ xs. xs ++ whole s.wanted) none_done,
  )
  advance_from-Holds (streaming (suc left) i) w s _ _ h = send_event-Holds w left i s h
  advance_from-Holds (streaming zero i) w s _ _ (e, count, done) =
      sym (append-nil s.steps)
      ∙ ap (λ xs. s.steps ++ xs) (sym (stream_to_done s.wanted.jitter_scale _ count))
      ∙ done
  advance_from-Holds cleared w s n _ h = absurd (n refl)
  advance_from-Holds crashed w s _ n h = absurd (n refl)

  -- The goroutines with other writers do not notice.
  Holds-update :
      (heap : ℕ → StreamWriter F) (i : ℕ) (w : StreamWriter F) (ss : List (Stream F))
      → ¬ Mem i (writers ss)
      → All (Holds heap) ss
      → All (Holds (update heap i w)) ss
  Holds-update heap i w [] n h = tt
  Holds-update heap i w (s ∷ ss) n h = (
    rw
        (if_neg (ℕ_discrete i s.writer)
          (λ e. n (subst (λ j. Mem i (j ∷ writers ss)) e mem-cons_self)))
        h.0,
    Holds-update heap i w ss (λ m. n (mem-cons_of_mem s.writer m)) h.1,
  )

  -- Every response that has ended was written whole.
  abbrev pub IsWhole : Stream F → Type 0
  IsWhole s = s.steps ≡ whole s.wanted

  pub record Correct (t : System F) : Type 0 where
    pub holding : All (Holds t.heap) t.running
    pub ended : All IsWhole t.finished

  Serve-Correct :
      {t u : System F} → Serve host t u → Owned (owners t) t.allocated → Correct t → Correct u
  Serve-Correct {t} (advances before s after e not_cleared not_crashed) o c =
      let n = others_differ host t before s after e o in
      let held =
        All-split (Holds t.heap) before (s ∷ after) (subst (All (Holds t.heap)) e c.holding) in
      let (w, s') = advance host (t.heap s.writer) s in
      let same : s'.writer ≡ s.writer = (advance_keeps host (t.heap s.writer) s.point s).0 in
      let own : Holds (update t.heap s.writer w) s' =
        rw (if_pos (ℕ_discrete s.writer s'.writer) (sym same))
          (advance_from-Holds s.point (t.heap s.writer) s not_cleared not_crashed held.1.0) in
      record {
        holding =
            All-append (Holds (update t.heap s.writer w)) before (s' ∷ after)
              (Holds-update t.heap s.writer w before (λ m. n (mem-append_left (writers after) m))
                held.0)
              (
                own,
                Holds-update t.heap s.writer w after (λ m. n (mem-append_right (writers before) m))
                    held.1.1,
              );
        ended = c.ended;
      }
  Serve-Correct {t} (puts before s after e at_end) o c =
      let held =
        All-split (Holds t.heap) before (s ∷ after) (subst (All (Holds t.heap)) e c.holding) in
      record {
        holding = All-append (Holds t.heap) before after held.0 held.1.1;
        ended = (subst (λ p. HoldsAt p (t.heap s.writer) s) at_end held.1.0, c.ended);
      }

  Step-Correct :
      {t u : System F} → Step host t u → Owned (owners t) t.allocated → Correct t → Correct u
  Step-Correct (serves p) o c = Serve-Correct p o c
  Step-Correct {t} (gets_new wanted) o c = record {
    holding = (
      refl,
      Holds-update t.heap t.allocated (new_writer host) t.running
          (λ m. omega (arith, o.below t.allocated (mem-append_left t.pool m))) c.holding,
    );
    ended = c.ended;
  }
  Step-Correct {t} (gets_pooled before i after wanted e) o c = record {
    holding = (refl, c.holding);
    ended = c.ended;
  }
  Step-Correct {t} (drops before i after e) o c = record { holding = c.holding; ended = c.ended }

  pub Reach-Correct : {t : System F} → Reach host t → Correct t
  Reach-Correct start = record { holding = tt; ended = tt }
  Reach-Correct (later r p) = Step-Correct p (Reach-Owned host r) (Reach-Correct r)

  -- However the goroutines of the requests interleave and reuse writers, a stream that has ended
  -- has written every event of its own response, in order and at its own jitter scale, and none
  -- of another response.
  pub finished_streams_whole :
      (t : System F) (s : Stream F)
      → Reach host t
      → In s t.finished
      → s.steps ≡ stream_to host s.wanted.jitter_scale s.wanted.events
  finished_streams_whole t s r m = All-In IsWhole s t.finished (Reach-Correct r).ended m

  -- The loop of StreamTo never indexes its events out of range, whatever the interleaving.
  pub streams_never_crash :
      (t : System F) (s : Stream F) → Reach host t → In s t.running → s.point ≢ crashed
  streams_never_crash t s r m e =
      subst (λ p. HoldsAt p (t.heap s.writer) s) e
        (All-In (Holds t.heap) s t.running (Reach-Correct r).holding m)

  -- The bytes of a stream that has ended are those that are served without timing.
  pub finished_streams_bytes :
      (t : System F) (s : Stream F) (js : List (Json F))
      → Reach host t
      → In s t.finished
      → s.wanted.events ≡ sse_events_of host js
      → All (IsEvent host) js
      → written s.steps ≡ sse_body_from host [] js
  finished_streams_bytes t s js r m e h =
      ap written (finished_streams_whole t s r m)
      ∙ ap (λ es. written (stream_to host s.wanted.jitter_scale es)) e
      ∙ stream_to_sse_body host s.wanted.jitter_scale js h
