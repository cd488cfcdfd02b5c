-- ===== src/Tests/Answers.antt =====
-- Answers of the mock handler at concrete requests.
use auto_mock_tools.Prelude.{
  ℕ, ◌≡◌, refl, inl, inr, true, List, [], ◌∷◌, Bytes, codes, equal, lookup,
}
use auto_mock_tools.Json.{Json, str, obj, fields}
use auto_mock_tools.Storage.Types.{MockStorage}
use auto_mock_tools.Storage.Load.Contents.{scan_base}
use auto_mock_tools.Loader.Body.{is_done, sse_body_from, sse_events_of}
use auto_mock_tools.Handlers.Calls.{Request}
use auto_mock_tools.Handlers.{router}
use auto_mock_tools.Handlers.Stream.{stream_to, written}
use auto_mock_tools.Handlers.Stream.Replay.{stream_to_sse_body}
use auto_mock_tools.Handlers.Count.{count, is_status, is_body}
use auto_mock_tools.Server.Once.{router_answers_once}
use auto_mock_tools.Tests.World.{host, externals, files}
use auto_mock_tools.Tests.Stores.{store, store_with, request_for}

abbrev post_users : Request
post_users = request_for (codes "/users") (codes "POST") (codes "application/json, */*")

router_answers_once_example :
    (count is_body (router host externals store true 0 post_users) ≡ 1)
    × (count is_status (router host externals store true 0 post_users) ≡ 1)
unfolding equal
router_answers_once_example = router_answers_once host externals store true 0 post_users

-- the store of the directory of the examples
abbrev directory_store : MockStorage ℕ Bytes
directory_store = store_with (scan_base host files (codes "mocks"))

-- one event with a text, and the end of the stream
abbrev recorded_events : List (Json ℕ)
recorded_events =
    obj (fields ((codes "data", str (codes "hello")) ∷ []))
    ∷ obj (fields ((codes "data", str (codes "[DONE]")) ∷ []))
    ∷ []

stream_to_sse_body_example :
    written (stream_to host 1 (sse_events_of host recorded_events))
    ≡ codes "data: hello\n\ndata: [DONE]\n\n"
unfolding sse_body_from lookup equal is_done
stream_to_sse_body_example = stream_to_sse_body host 1 recorded_events (
  (str (codes "hello"), refl, inr (codes "hello", refl)),
  ((str (codes "[DONE]"), refl, inl refl), tt),
)
