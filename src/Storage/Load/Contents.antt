-- ===== src/Storage/Load/Contents.antt =====
-- What a mock directory holds.
use auto_mock_tools.Prelude.{
  List, [], ◌∷◌, ◌++◌, Option, none, some, if◌then◌else◌, Bytes, Result, ok, err,
}
use auto_mock_tools.Host.{Host, FileSystem, DirEntry}
use auto_mock_tools.Loader.{load_response_from_file}
use auto_mock_tools.Storage.Types.{MockResponse}
use auto_mock_tools.Storage.Load.{is_mock_file, join}

module _ {F : Type 0} where
  abbrev pub parsed : Result (MockResponse F) → List (MockResponse F)
  parsed (ok r) = r ∷ []
  parsed (err _) = []

module _ {F : Type 0} (host : Host F) (files : FileSystem) where
  -- the response of a file, if it is a mock file that parses
  abbrev pub scan_file : Bytes → Bytes → DirEntry → List (MockResponse F)
  scan_file dir mock_id file =
      if is_mock_file file
      then parsed (load_response_from_file host files (join dir file.name) mock_id)
      else []

  abbrev pub scan_files : Bytes → Bytes → List DirEntry → List (MockResponse F)
  scan_files dir mock_id [] = []
  scan_files dir mock_id (file ∷ rest) = scan_file dir mock_id file ++ scan_files dir mock_id rest

  abbrev pub scan_listing : Bytes → Bytes → Option (List DirEntry) → List (MockResponse F)
  scan_listing dir mock_id none = []
  scan_listing dir mock_id (some fs) = scan_files dir mock_id fs

  abbrev pub scan_dir : Bytes → DirEntry → List (MockResponse F)
  scan_dir base entry =
      if entry.is_dir
      then scan_listing (join base entry.name) entry.name (files.read_dir (join base entry.name))
      else []

  -- The responses below the base directory: for each folder, in listing order, those of its files.
  abbrev pub scan_dirs : Bytes → List DirEntry → List (MockResponse F)
  scan_dirs base [] = []
  scan_dirs base (entry ∷ rest) = scan_dir base entry ++ scan_dirs base rest

  abbrev pub scan_base_listing : Bytes → Option (List DirEntry) → List (MockResponse F)
  scan_base_listing base none = []
  scan_base_listing base (some entries) = scan_dirs base entries

  -- the responses that a base directory holds; none if it does not exist
  abbrev pub scan_base : Bytes → List (MockResponse F)
  scan_base base = if files.missing base then [] else scan_base_listing base (files.read_dir base)
