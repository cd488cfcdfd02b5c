-- ===== src/Server/Endpoints.antt =====
-- The statistics and the listing that a started server serves.
use auto_mock_tools.Prelude.{
  arith, ◌≡◌, refl, ap, ◌∙◌, subst, Bool, Bool-cases, inl, inr, true, false, ◌||◌, List, [], ◌∷◌,
  Option, none, some, if◌then◌else◌, Bytes, Error, ok, ok_injective, >>=-eq-ok,
}
use auto_mock_tools.Host.{Host, FileSystem, DirEntry}
use auto_mock_tools.Storage.Types.{MockStorage}
use auto_mock_tools.Storage.Stats.{stats_json, get_stats, list_all_mocks, mock_list_json}
use auto_mock_tools.Storage.Stats.Fresh.{IsFresh, cache_responses-IsFresh}
use auto_mock_tools.Storage.Load.{
  new_mock_storage, load_responses, load_base, load_dirs, empty_storage, set_timing_config,
}
use auto_mock_tools.Scenario.Types.{Externals}
use auto_mock_tools.Scenario.Load.{load_scenario_config}
use auto_mock_tools.Scenario.Load.Fresh.{load_scenario_config-IsFresh}
use auto_mock_tools.Handlers.{json_endpoint}
use auto_mock_tools.Handlers.Calls.{Request}
use auto_mock_tools.Recorder.{Disk}
use auto_mock_tools.Server.{Flags, Server, or_fatal, configure, start, serve}
use auto_mock_tools.Server.Answers.{is_stats, is_list, router_lem, serve_lem}

module _ {F Op : Type 0} (host : Host F) (files : FileSystem) (externals : Externals F Op) where
  load_base-IsFresh :
      (s s' : MockStorage F Op) (listing : Option (List DirEntry))
      → load_base host files s listing ≡ ok s'
      → IsFresh host s'
  load_base-IsFresh s s' none h = cc
  load_base-IsFresh s s' (some entries) h =
      subst (IsFresh host) (ok_injective h)
        (cache_responses-IsFresh host (load_dirs host files s entries))

  new_mock_storage-IsFresh :
      (base : Bytes) (s : MockStorage F Op)
      → files.missing base ≡ false
      → new_mock_storage host files base ≡ ok s
      → IsFresh host s
  unfolding new_mock_storage
  new_mock_storage-IsFresh base s present h =
      load_base-IsFresh (empty_storage host files base) s (files.read_dir base) (rw present at h)

  or_fatal-IsFresh :
      (s s' : MockStorage F Op) (path : Bytes) (o : Option Error × MockStorage F Op)
      → load_scenario_config host files externals path s ≡ o
      → or_fatal host files externals o ≡ ok s'
      → IsFresh host s'
  or_fatal-IsFresh s s' path (none, s'') e h =
      subst (IsFresh host) (ok_injective h)
        (load_scenario_config-IsFresh host files externals path s s'' e)
  or_fatal-IsFresh s s' path (some x, s'') e h = cc

  configure-IsFresh :
      (config : Bytes) (s s' : MockStorage F Op)
      → (config ≡ [] → IsFresh host s)
      → configure host files externals config s ≡ ok s'
      → IsFresh host s'
  unfolding configure
  configure-IsFresh [] s s' fresh h = subst (IsFresh host) (ok_injective h) (fresh refl)
  configure-IsFresh (c ∷ path) s s' fresh h = or_fatal-IsFresh s s' (c ∷ path) _ refl h

  set_timing_config-IsFresh :
      (s : MockStorage F Op) (replay_timing : Bool) (jitter : F)
      → IsFresh host s
      → IsFresh host (set_timing_config s replay_timing jitter)
  unfolding set_timing_config get_stats list_all_mocks
  set_timing_config-IsFresh s replay_timing jitter h = record {
    stats = h.stats;
    listing = h.listing;
  }

  module _ (disk : Disk) (flags : Flags F) (server : Server F Op)
      (e : start host files externals disk flags ≡ ok server) where
    start-IsFresh :
        (flags.mock_config ≡ [] → files.missing flags.mock_dir ≡ false) → IsFresh host server.store
    unfolding start
    start-IsFresh present =
        let (loaded, l, e') =
          >>=-eq-ok (new_mock_storage {Op = Op} host files flags.mock_dir) _ e in
        let (s, c, e'') =
          >>=-eq-ok (configure host files externals flags.mock_config loaded) _ e' in
        subst (λ (x : Server F Op). IsFresh host x.store) (ok_injective e'')
          (set_timing_config-IsFresh s flags.replay_timing flags.jitter (
            configure-IsFresh flags.mock_config loaded s
              (λ nil. new_mock_storage-IsFresh flags.mock_dir loaded (present nil) l) c))

    -- Unless it has no scenario file and its mock directory is missing, a started server answers
    -- its statistics endpoint with the JSON of the statistics of its store, and its listing
    -- endpoint with that of its mocks, where these are marshalled.
    pub serve_endpoints :
        (random : F) (request : Request) (stats listing : Bytes)
        → (flags.mock_config ≡ [] → files.missing flags.mock_dir ≡ false)
        → host.marshal (stats_json host (get_stats host server.store)) ≡ some stats
        → host.marshal (mock_list_json host (list_all_mocks host server.store)) ≡ some listing
        → (is_stats request || is_list request) ≡ true
        → serve host externals server random request
          ≡ json_endpoint host externals (if is_stats request then stats else listing)
    serve_endpoints random request stats listing present m n endpoint =
        let fresh = start-IsFresh present in
        serve_lem host externals server random request
        ∙ rw router_lem (elim (Bool-cases (is_stats request)) [
          | inl s ↦ rw s (ap (json_endpoint host externals) (fresh.stats stats m))
          | inr other ↦
              let l : is_list request ≡ true = ground arith in
              rw (other, l) (ap (json_endpoint host externals) (fresh.listing listing n))
        ])

    -- The store of a server without mocks and without a scenario file holds no cached JSON.
    start-not_cached :
        flags.mock_config ≡ []
        → files.missing flags.mock_dir ≡ true
        → (server.store.cached_stats ≡ []) × (server.store.cached_mock_list ≡ [])
    unfolding start new_mock_storage load_responses configure set_timing_config
    start-not_cached no_config missing =
        let (loaded, l, e') =
          >>=-eq-ok (new_mock_storage {Op = Op} host files flags.mock_dir) _ e in
        let (s, c, e'') =
          >>=-eq-ok (configure host files externals flags.mock_config loaded) _ e' in
        let empty : ok (empty_storage host files flags.mock_dir) ≡ ok loaded = rw missing at l in
        let same : ok loaded ≡ ok s = rw no_config at c in
        let stored = ok_injective empty ∙ ok_injective same in
        subst (λ (x : Server F Op). (x.store.cached_stats ≡ []) × (x.store.cached_mock_list ≡ []))
          (ok_injective e'')
          (subst (λ (x : MockStorage F Op). (x.cached_stats ≡ []) × (x.cached_mock_list ≡ []))
            stored (refl, refl))

    -- Without a scenario file, where the mock directory is missing, both endpoints answer with an
    -- empty body.
    serve_endpoints_empty :
        (random : F) (request : Request)
        → flags.mock_config ≡ []
        → files.missing flags.mock_dir ≡ true
        → (is_stats request || is_list request) ≡ true
        → serve host externals server random request ≡ json_endpoint host externals []
    serve_endpoints_empty random request no_config missing endpoint =
        let (stats, listing) = start-not_cached no_config missing in
        serve_lem host externals server random request
        ∙ rw router_lem (elim (Bool-cases (is_stats request)) [
          | inl s ↦ rw s (ap (json_endpoint host externals) stats)
          | inr other ↦
              let l : is_list request ≡ true = ground arith in
              rw (other, l) (ap (json_endpoint host externals) listing)
        ])
