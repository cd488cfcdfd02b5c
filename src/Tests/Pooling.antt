-- ===== src/Tests/Pooling.antt =====
-- Streams that run at once over the pool of writers, at a concrete interleaving.
use auto_mock_tools.Prelude.{
  ℕ, zero, suc, In, ◌≡◌, refl, ap, inl, List, [], ◌∷◌, ◌++◌, Option, none, some, codes,
}
use native.Mathlib.Decide.{ℕ_discrete}
use auto_mock_tools.Json.{null}
use auto_mock_tools.Storage.Types.{SseEvent}
use auto_mock_tools.Host.{pos}
use auto_mock_tools.Handlers.Stream.{StreamStep, wait_until, write, flush, stream_to}
use auto_mock_tools.Handlers.Pool.{
  StreamWriter, Stream, System, cleared, Reach, start, later, serves, gets_new, gets_pooled,
  advance_from, send_event,
}
use auto_mock_tools.Handlers.Pool.Owners.{owners, Owned, Reach-Owned}
use auto_mock_tools.Handlers.Pool.Invariant.{finished_streams_whole}
use auto_mock_tools.Handlers.Pool.Progress.{requests, next_serve}
use auto_mock_tools.Handlers.Pool.Ends.{Inevitably, AllServed, streams_end}
use auto_mock_tools.Tests.World.{host}

abbrev event : List ℕ → ℕ → SseEvent ℕ
event text timestamp = record { payload = null; timestamp = timestamp; serialized_data = text }

abbrev first : StreamWriter ℕ
first = record { events = event (codes "a") 1 ∷ event (codes "b") 2 ∷ []; jitter_scale = 1 }

abbrev second : StreamWriter ℕ
second = record { events = event (codes "c") 3 ∷ []; jitter_scale = 2 }

record Run : Type 0 where
  last : System ℕ
  reach : Reach host last

-- The goroutine at an index of the list moves.
at_index :
    (i : ℕ) (ss : List (Stream ℕ))
    → Option (
        (before : List (Stream ℕ)) × (s : Stream ℕ) × (after : List (Stream ℕ)) × (ss
          ≡ before ++ (s ∷ after)))
at_index i [] = none
at_index zero (s ∷ ss) = some ([], s, ss, refl)
at_index (suc i) (s ∷ ss) = elim (at_index i ss) [
  | none ↦ none
  | some (before, r, after, e) ↦ some (s ∷ before, r, after, ap (◌∷◌ s) e)
]

turn : Run → ℕ → Run
unfolding at_index next_serve
turn r i = elim (at_index i r.last.running) [
  | none ↦ r
  | some (before, s, after, e) ↦
      let (u, p) = next_serve host r.last before s after r.reach e in
      record { last = u; reach = later r.reach (serves p) }
]

turns : Run → List ℕ → Run
unfolding turn
turns r [] = r
turns r (i ∷ is) = turns (turn r i) is

abbrev opened_new : StreamWriter ℕ → Run → Run
opened_new wanted r = record { last = _; reach = later r.reach (gets_new wanted) }

-- Two requests at once, each with a new writer; the second ends and its writer is taken again.
abbrev two_run : Run
two_run = opened_new second (opened_new first (record { last = _; reach = start }))

abbrev one_ended : Run
one_ended = turns two_run (0 ∷ 1 ∷ 0 ∷ 1 ∷ 0 ∷ 1 ∷ 0 ∷ 1 ∷ 0 ∷ 0 ∷ [])

one_ended_pool : (one_ended.last.pool ≡ 1 ∷ [])
unfolding turns turn at_index next_serve advance_from send_event ℕ_discrete
one_ended_pool = refl

-- The writer of the ended stream goes to a third request, while the first goes on.
abbrev reused : Run
reused = record {
  last = _;
  reach = later one_ended.reach (gets_pooled [] 1 [] first one_ended_pool);
}

abbrev two_ended : Run
two_ended = turns reused (0 ∷ 1 ∷ 0 ∷ 1 ∷ 0 ∷ 1 ∷ 0 ∷ 0 ∷ 0 ∷ 0 ∷ [])

abbrev data_steps : List ℕ → ℕ → List StreamStep → List StreamStep
data_steps text time steps =
    wait_until (pos time)
    ∷ write (codes "data: ")
    ∷ write text
    ∷ write (codes "\n\n")
    ∷ flush
    ∷ steps

abbrev reused_stream : Stream ℕ
reused_stream = record {
  writer = 1;
  wanted = first;
  point = cleared;
  steps = data_steps (codes "a") 1 (data_steps (codes "b") 2 []);
}

two_ended_finished : In reused_stream two_ended.last.finished
unfolding turns turn at_index next_serve advance_from send_event ℕ_discrete stream_to
two_ended_finished = inl refl

finished_streams_whole_example :
    data_steps (codes "a") 1 (data_steps (codes "b") 2 []) ≡ stream_to host 1 first.events
finished_streams_whole_example =
    finished_streams_whole host two_ended.last reused_stream two_ended.reach two_ended_finished

Reach-Owned_example : Owned (owners reused.last) reused.last.allocated
Reach-Owned_example = Reach-Owned host reused.reach

streams_end_example :
    Inevitably host (AllServed host (requests host reused.last.running)) 4 reused.last
streams_end_example = streams_end host 4 reused.last reused.reach
