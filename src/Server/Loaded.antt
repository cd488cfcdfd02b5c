-- ===== src/Server/Loaded.antt =====
-- A loaded response as a started server serves it.
use auto_mock_tools.Prelude.{
  ◌≡◌, ◌∷◌, refl, sym, ap, ◌∙◌, true, false, ◌&&◌, ◌||◌, inl, inr, Bool, Option-cases, List, [],
  some, codes, equal, find, find-eq-some, find-eq-none, In, In-append_right, All, ok,
}
use auto_mock_tools.Host.{Host, FileSystem}
use auto_mock_tools.Storage.Types.{MockResponse, MockStorage}
use auto_mock_tools.Storage.Find.{normalize}
use auto_mock_tools.Storage.Find.Catalog.{accepts, serves, NoPipe, Readable}
use auto_mock_tools.Storage.Load.Contents.{scan_base}
use auto_mock_tools.Scenario.Types.{Externals}
use auto_mock_tools.Handlers.{
  respond, served, response_headers, response_body, replay_delay, jitter_scale,
}
use auto_mock_tools.Scenario.Load.{has_events}
use auto_mock_tools.Handlers.Calls.{Request, set_body, stream_body}
use auto_mock_tools.Handlers.Headers.{respond_lem}
use auto_mock_tools.Handlers.Shape.{response_body_untimed}
use auto_mock_tools.Handlers.Lookup.{mock_id_of, wanted}
use auto_mock_tools.Recorder.{Disk}
use auto_mock_tools.Server.{Flags, Server, start, serve}
use auto_mock_tools.Server.Answers.{is_stats, is_list}
use auto_mock_tools.Server.Lookup.{serve_by_mock_id}

-- The one element that passes the test is found.
find_unique :
    {A : Type 0} (p : A → Bool) (a : A) (xs : List A)
    → In a xs
    → p a ≡ true
    → ((x : A) → In x xs → p x ≡ true → x ≡ a)
    → find p xs ≡ some a
find_unique p a xs i h unique = elim (Option-cases (find p xs)) [
  | inl nothing ↦
      let no : p a ≡ false = find-eq-none p a xs nothing i in
      let e : true ≡ false = sym h ∙ no in cc
  | inr (x, found) ↦ let (j, k) = find-eq-some p x xs found in found ∙ ap some (unique x j k)
]

-- the response is for the request
abbrev pub matches : {F : Type 0} → Request → MockResponse F → Bool
matches request r =
    serves request.path (mock_id_of request) (normalize (wanted request)) r
    && accepts request.method r

module _ {F Op : Type 0} (host : Host F) (store : MockStorage F Op) (random : F) where
  -- the body of an answer that is not timed
  pub respond-set_body :
      (r : MockResponse F)
      → store.replay_timing ≡ false
      → In (set_body r.body) (respond host store random r)
  respond-set_body r untimed = rw respond_lem (
      In-append_right (set_body r.body) (replay_delay host store random r) _ (
        inr (
          In-append_right (set_body r.body) (response_headers host r) _
            (rw (response_body_untimed host store random r untimed) (inl refl)))))

  response_body_timed :
      (r : MockResponse F)
      → r.is_sse ≡ true
      → has_events r.sse_events ≡ true
      → store.replay_timing ≡ true
      → response_body host store random r
        ≡ stream_body r.sse_events (jitter_scale host store.jitter random) ∷ []
  unfolding response_body
  response_body_timed r sse events timed = rw (sse, events, timed) refl

  -- the stream of an answer that is timed
  pub respond-stream_body :
      (r : MockResponse F)
      → r.is_sse ≡ true
      → has_events r.sse_events ≡ true
      → store.replay_timing ≡ true
      → In
          (stream_body r.sse_events (jitter_scale host store.jitter random))
          (respond host store random r)
  respond-stream_body r sse events timed = rw respond_lem (
      In-append_right _ (replay_delay host store random r) _ (
        inr (
          In-append_right _ (response_headers host r) _
            (rw (response_body_timed r sse events timed) (inl refl)))))

module _ {F Op : Type 0} (host : Host F) (files : FileSystem) (externals : Externals F Op)
    (disk : Disk) (flags : Flags F) (server : Server F Op)
    (e : start host files externals disk flags ≡ ok server) where
  module _ (random : F) (request : Request) (r : MockResponse F) where
    -- The one loaded response that is for a request is its answer.
    pub serve_loaded-respond :
        flags.mock_config ≡ []
        → All Readable (scan_base host files flags.mock_dir)
        → NoPipe request.path (mock_id_of request)
        → (is_stats request || is_list request) ≡ false
        → equal (request.peek (codes "Accept")) (codes "*/*") ≡ false
        → In r (scan_base host files flags.mock_dir)
        → matches request r ≡ true
        → ((x : MockResponse F)
            → In x (scan_base host files flags.mock_dir)
            → matches request x ≡ true
            → x ≡ r)
        → serve host externals server random request ≡ respond host server.store random r
    unfolding served
    serve_loaded-respond no_config readable n mock one i h unique =
        rw
          (
            serve_by_mock_id host files externals disk flags server e random request no_config
                readable n mock one,
            find_unique (matches request) r (scan_base host files flags.mock_dir) i h unique,
          )
          refl
