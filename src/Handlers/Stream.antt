-- ===== src/Handlers/Stream.antt =====
-- pkg/handlers/handlers.go: `sseStreamWriter.StreamTo`.
pub mod Replay
use auto_mock_tools.Prelude.{List, [], ◌∷◌, ◌++◌, Bytes, codes}
use auto_mock_tools.Host.{Host, ℤ}
use auto_mock_tools.Storage.Types.{SseEvent}

-- `wait_until` is a time in nanoseconds from the start of the stream; `flush` empties the writer.
pub data StreamStep : Type 0 where
  wait_until : ℤ → StreamStep
  write : Bytes → StreamStep
  flush : StreamStep

module _ {F : Type 0} (host : Host F) where
  -- `time.Duration(x * float64(time.Second))`
  abbrev pub nanoseconds : F → ℤ
  nanoseconds x = host.to_int (host.mul x host.second)

  unfoldable pub stream_to : F → List (SseEvent F) → List StreamStep
  stream_to jitter_scale [] = []
  stream_to jitter_scale (event ∷ events) =
      wait_until (nanoseconds (host.mul event.timestamp jitter_scale))
      ∷ write (codes "data: ")
      ∷ write event.serialized_data
      ∷ write (codes "\n\n")
      ∷ flush
      ∷ stream_to jitter_scale events

-- the bytes that reach the client
unfoldable pub written : List StreamStep → Bytes
written [] = []
written (write bytes ∷ steps) = bytes ++ written steps
written (wait_until t ∷ steps) = written steps
written (flush ∷ steps) = written steps
