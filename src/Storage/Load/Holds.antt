-- ===== src/Storage/Load/Holds.antt =====
-- A file below the mock directory is loaded.
use auto_mock_tools.Prelude.{
  ◌≡◌, refl, subst, true, false, inl, inr, List, [], ◌∷◌, some, Bytes, ok, In, In-append_left,
  In-append_right,
}
use auto_mock_tools.Host.{Host, FileSystem, DirEntry}
use auto_mock_tools.Storage.Types.{MockResponse}
use auto_mock_tools.Storage.Load.{is_mock_file, join}
use auto_mock_tools.Storage.Load.Contents.{scan_file, scan_files, scan_dir, scan_dirs, scan_base}
use auto_mock_tools.Loader.{parse_mock_record, load_response_from_file}

-- The base directory is there, and a folder in it holds a mock file with these bytes.
pub record Holds (files : FileSystem) (base folder bytes : Bytes) : Type 0 where
  pub entries : List DirEntry
  pub listing : List DirEntry
  pub dir : DirEntry
  pub file : DirEntry
  pub present : files.missing base ≡ false
  pub base_read : files.read_dir base ≡ some entries
  pub dir_in : In dir entries
  pub is_dir : dir.is_dir ≡ true
  pub named : dir.name ≡ folder
  pub dir_read : files.read_dir (join base dir.name) ≡ some listing
  pub file_in : In file listing
  pub mock : is_mock_file file ≡ true
  pub file_read : files.read_file (join (join base dir.name) file.name) ≡ some bytes

module _ {F : Type 0} (host : Host F) (files : FileSystem) where
  In-scan_files :
      (dir mock_id : Bytes) (r : MockResponse F) (file : DirEntry) (fs : List DirEntry)
      → In file fs
      → In r (scan_file host files dir mock_id file)
      → In r (scan_files host files dir mock_id fs)
  In-scan_files dir mock_id r file [] i h = elim i [ ]
  In-scan_files dir mock_id r file (f ∷ fs) (inl e) h =
      In-append_left r (scan_file host files dir mock_id f) _
        (subst (λ x. In r (scan_file host files dir mock_id x)) e h)
  In-scan_files dir mock_id r file (f ∷ fs) (inr i) h =
      In-append_right r (scan_file host files dir mock_id f) _
        (In-scan_files dir mock_id r file fs i h)

  In-scan_dirs :
      (base : Bytes) (r : MockResponse F) (dir : DirEntry) (entries : List DirEntry)
      → In dir entries
      → In r (scan_dir host files base dir)
      → In r (scan_dirs host files base entries)
  In-scan_dirs base r dir [] i h = elim i [ ]
  In-scan_dirs base r dir (d ∷ ds) (inl e) h =
      In-append_left r (scan_dir host files base d) _
        (subst (λ x. In r (scan_dir host files base x)) e h)
  In-scan_dirs base r dir (d ∷ ds) (inr i) h =
      In-append_right r (scan_dir host files base d) _ (In-scan_dirs base r dir ds i h)

  load_response-read :
      (path fallback bytes : Bytes) (r : MockResponse F)
      → files.read_file path ≡ some bytes
      → parse_mock_record host bytes fallback ≡ ok r
      → load_response_from_file host files path fallback ≡ ok r
  unfolding load_response_from_file
  load_response-read path fallback bytes r read parsed = rw read parsed

  -- A file that a folder of the base directory holds, and that parses, is one of its responses.
  pub Holds-In :
      (base folder bytes : Bytes) (r : MockResponse F)
      → Holds files base folder bytes
      → parse_mock_record host bytes folder ≡ ok r
      → In r (scan_base host files base)
  Holds-In base folder bytes r h parsed =
      let loaded =
        load_response-read (join (join base h.dir.name) h.file.name) h.dir.name bytes r h.file_read
          (rw h.named parsed) in
      let here : In r (scan_file host files (join base h.dir.name) h.dir.name h.file) =
        rw (h.mock, loaded) (inl refl) in
      rw (h.present, h.base_read)
        (In-scan_dirs base r h.dir h.entries h.dir_in (
          rw (h.is_dir, h.dir_read)
            (In-scan_files (join base h.dir.name) h.dir.name r h.file h.listing h.file_in here)))
