-- ===== src/Storage/Load.antt =====
-- pkg/storage/storage.go: `NewMockStorage`, `loadResponses` and `SetTimingConfig`.
pub mod Contents
pub mod Loop
pub mod Scan
pub mod Holds
pub mod WellFormed
use auto_mock_tools.Prelude.{
  Bool, false, not, ◌||◌, List, [], ◌∷◌, ◌++◌, ◌-◌, ltb, Option, none, some, if◌then◌else◌, Bytes,
  codes, equal, length, drop, Assoc, Result, ok, err, read_failed,
}
use auto_mock_tools.Host.{Host, FileSystem, DirEntry}
use auto_mock_tools.Loader.{load_response_from_file}
use auto_mock_tools.Storage.Types.{MockResponse, MockStorage}
use auto_mock_tools.Storage.Index.{index_response}
use auto_mock_tools.Storage.Stats.{cache_responses}

-- `strings.HasSuffix(s, suffix)`
unfoldable pub has_suffix : Bytes → Bytes → Bool
has_suffix suffix s =
    if ltb (length s) (length suffix)
    then false
    else equal (drop (length s - length suffix) s) suffix

-- the file test of the inner loop
unfoldable pub is_mock_file : DirEntry → Bool
unfolding has_suffix
is_mock_file file = not (file.is_dir || not (has_suffix (codes ".json") file.name))

abbrev pub join : Bytes → Bytes → Bytes
join dir name = dir ++ codes "/" ++ name

module _ {F Op : Type 0} where
  -- A file that does not parse is skipped.
  abbrev pub index_parsed : MockStorage F Op → Result (MockResponse F) → MockStorage F Op
  index_parsed s (ok r) = index_response s r
  index_parsed s (err _) = s

module _ {F Op : Type 0} (host : Host F) (files : FileSystem) where
  unfoldable pub load_file : Bytes → Bytes → MockStorage F Op → DirEntry → MockStorage F Op
  unfolding is_mock_file load_response_from_file index_response
  load_file dir mock_id s file =
      if is_mock_file file
      then index_parsed s (load_response_from_file host files (join dir file.name) mock_id)
      else s

  unfoldable pub load_files : Bytes → Bytes → MockStorage F Op → List DirEntry → MockStorage F Op
  unfolding load_file
  load_files dir mock_id s [] = s
  load_files dir mock_id s (file ∷ rest) =
      load_files dir mock_id (load_file dir mock_id s file) rest

  -- A directory that cannot be read is skipped.
  abbrev pub load_listing :
      Bytes → Bytes → MockStorage F Op → Option (List DirEntry) → MockStorage F Op
  load_listing dir mock_id s none = s
  load_listing dir mock_id s (some fs) = load_files dir mock_id s fs

  unfoldable pub load_dir : MockStorage F Op → DirEntry → MockStorage F Op
  unfolding load_files
  load_dir s entry =
      let dir = join s.base_dir entry.name in
      if entry.is_dir then load_listing dir entry.name s (files.read_dir dir) else s

  unfoldable pub load_dirs : MockStorage F Op → List DirEntry → MockStorage F Op
  unfolding load_dir
  load_dirs s [] = s
  load_dirs s (entry ∷ rest) = load_dirs (load_dir s entry) rest

  abbrev pub load_base : MockStorage F Op → Option (List DirEntry) → Result (MockStorage F Op)
  load_base s none = err read_failed
  load_base s (some entries) = ok (cache_responses host (load_dirs s entries))

  unfoldable pub load_responses : MockStorage F Op → Result (MockStorage F Op)
  unfolding load_dirs cache_responses
  load_responses s =
      if files.missing s.base_dir then ok s else load_base s (files.read_dir s.base_dir)

  abbrev pub empty_storage : Bytes → MockStorage F Op
  empty_storage base_dir = record {
    base_dir = base_dir;
    responses = [];
    responses_by_path_mock_id = [];
    cached_stats = [];
    cached_mock_list = [];
    replay_timing = false;
    jitter = host.zero;
    scenarios_enabled = false;
    scenario_by_path = [];
    scenario_order = [];
  }

  unfoldable pub new_mock_storage : Bytes → Result (MockStorage F Op)
  unfolding load_responses
  new_mock_storage base_dir = load_responses (empty_storage base_dir)

module _ {F Op : Type 0} where
  unfoldable pub set_timing_config : MockStorage F Op → Bool → F → MockStorage F Op
  set_timing_config s replay_timing jitter = record s {
    replay_timing = replay_timing;
    jitter = jitter;
  }
