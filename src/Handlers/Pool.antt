-- ===== src/Handlers/Pool.antt =====
-- pkg/handlers/handlers.go: the pooled `sseStreamWriter`s, as `MockHandler` takes them from
-- `sseStreamPool` and `StreamTo` reads them and gives them back, for requests that run at once.
--
-- The objects stand in a heap, the pool and the goroutines hold addresses. Each goroutine moves in
-- small steps, in any order. `sync.Pool` gives any of its objects or a new one, and may drop one.
pub mod Owners
pub mod Invariant
pub mod Progress
pub mod Ends
use native.Mathlib.Decide.{ℕ_discrete}
use mathlib.Core.Logic.{ite}
use auto_mock_tools.Prelude.{
  ℕ, zero, suc, ◌≡◌, ◌≢◌, List, [], ◌∷◌, ◌++◌, Option, none, some, length, get_elem?,
}
use auto_mock_tools.Host.{Host}
use auto_mock_tools.Storage.Types.{SseEvent}
use auto_mock_tools.Handlers.Stream.{StreamStep, stream_to}

pub record StreamWriter (F : Type 0) : Type 0 where
  pub events : List (SseEvent F)
  pub jitter_scale : F

-- Where a goroutine stands. `taken`: the handler has called `Get`; `filled`: it has set the events;
-- `ready`: it has set the scale too, and the stream starts; `streaming left i`: the loop is at
-- index `i`, with `left` rounds to go; `cleared`: before `Put`; `crashed`: an index out of range.
pub data Point : Type 0 where
  taken : Point
  filled : Point
  ready : Point
  streaming : ℕ → ℕ → Point
  cleared : Point
  crashed : Point

-- `wanted` is what the handler assigns to the fields of its writer: the events of its response and
-- the jitter scale it has computed. `steps` is what StreamTo has done.
pub record Stream (F : Type 0) : Type 0 where
  pub writer : ℕ
  pub wanted : StreamWriter F
  pub point : Point
  pub steps : List StreamStep

-- The writers from `allocated` on do not exist yet. `running` and `pool` are in no order.
pub record System (F : Type 0) : Type 0 where
  pub heap : ℕ → StreamWriter F
  pub allocated : ℕ
  pub pool : List ℕ
  pub running : List (Stream F)
  pub finished : List (Stream F)

abbrev pub update : {F : Type 0} → (ℕ → StreamWriter F) → ℕ → StreamWriter F → ℕ → StreamWriter F
update heap i w j = ite (ℕ_discrete i j) w (heap j)

-- a goroutine that has a writer from `Get`
abbrev pub opened : {F : Type 0} → ℕ → StreamWriter F → Stream F
opened i wanted = record { writer = i; wanted = wanted; point = taken; steps = [] }

module _ {F : Type 0} where
  -- `writer.events = mockResponse.SSEEvents` of the handler
  abbrev pub set_events : StreamWriter F → Stream F → StreamWriter F × Stream F
  set_events w s = (record w { events = s.wanted.events }, record s { point = filled })

  -- the assignments to `writer.jitterScale`, whose last one gives the computed scale
  abbrev pub set_jitter_scale : StreamWriter F → Stream F → StreamWriter F × Stream F
  set_jitter_scale w s =
      (record w { jitter_scale = s.wanted.jitter_scale }, record s { point = ready })

module _ {F : Type 0} (host : Host F) where
  -- `New` of the pool
  abbrev pub new_writer : StreamWriter F
  new_writer = record { events = []; jitter_scale = host.zero }

  -- one round of the loop of StreamTo, which reads the writer anew
  unfoldable pub send_event : StreamWriter F → ℕ → ℕ → Stream F → Stream F
  send_event w left i s = elim (get_elem? w.events i) [
    | none ↦ record s { point = crashed }
    | some event ↦ record s {
      point = streaming left (suc i);
      steps = s.steps ++ stream_to host w.jitter_scale (event ∷ []);
    }
  ]

  -- A step of a goroutine: its writer, as the step finds and as it leaves it.
  unfoldable pub advance_from : Point → StreamWriter F → Stream F → StreamWriter F × Stream F
  advance_from taken w s = set_events w s
  advance_from filled w s = set_jitter_scale w s
  advance_from ready w s = (w, record s { point = streaming (length w.events) 0 })
  advance_from (streaming (suc left) i) w s = (w, send_event w left i s)
  advance_from (streaming zero i) w s = (record w { events = [] }, record s { point = cleared })
  advance_from cleared w s = (w, s)
  advance_from crashed w s = (w, s)

  abbrev pub advance : StreamWriter F → Stream F → StreamWriter F × Stream F
  advance w s = advance_from s.point w s

  -- The state after a step of the goroutine `s`.
  abbrev pub advanced : System F → List (Stream F) → Stream F → List (Stream F) → System F
  advanced t before s after =
      let (w, s') = advance (t.heap s.writer) s in
      record t { heap = update t.heap s.writer w; running = before ++ (s' ∷ after) }

  -- The state after `sseStreamPool.Put` by the goroutine `s`, which ends.
  abbrev pub returned : System F → List (Stream F) → Stream F → List (Stream F) → System F
  returned t before s after = record t {
    pool = s.writer ∷ t.pool;
    running = before ++ after;
    finished = s ∷ t.finished;
  }

  -- The steps of the goroutines that run.
  pub data Serve (t : System F) : System F → Type 0 where
    advances :
        (before : List (Stream F)) (s : Stream F) (after : List (Stream F))
        → t.running ≡ before ++ (s ∷ after)
        → s.point ≢ cleared
        → s.point ≢ crashed
        → Serve t (advanced t before s after)
    puts :
        (before : List (Stream F)) (s : Stream F) (after : List (Stream F))
        → t.running ≡ before ++ (s ∷ after)
        → s.point ≡ cleared
        → Serve t (returned t before s after)

  -- A request comes, and its handler gets a new writer or one of the pool; the pool drops a writer.
  pub data Step (t : System F) : System F → Type 0 where
    serves : {u : System F} → Serve t u → Step t u
    gets_new :
        (wanted : StreamWriter F)
        → Step t (record t {
          heap = update t.heap t.allocated new_writer;
          allocated = suc t.allocated;
          running = opened t.allocated wanted ∷ t.running;
        })
    gets_pooled :
        (before : List ℕ) (i : ℕ) (after : List ℕ) (wanted : StreamWriter F)
        → t.pool ≡ before ++ (i ∷ after)
        → Step t (record t { pool = before ++ after; running = opened i wanted ∷ t.running })
    drops :
        (before : List ℕ) (i : ℕ) (after : List ℕ)
        → t.pool ≡ before ++ (i ∷ after)
        → Step t (record t { pool = before ++ after })

  -- the start of the program: no writers, no goroutines
  abbrev pub idle : System F
  idle = record { heap = λ i. new_writer; allocated = 0; pool = []; running = []; finished = [] }

  pub data Reach : System F → Type 0 where
    start : Reach idle
    later : {t u : System F} → Reach t → Step t u → Reach u
