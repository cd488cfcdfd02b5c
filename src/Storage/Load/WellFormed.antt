-- ===== src/Storage/Load/WellFormed.antt =====
-- Every response that a mock directory holds is well formed.
use auto_mock_tools.Prelude.{
  ◌≡◌, refl, Bool-cases, inl, inr, List, [], ◌∷◌, Option, none, some, Bytes, Result, ok, err,
  read_failed, or_error, ◌>>=◌, >>=-eq-ok, All, All-append,
}
use auto_mock_tools.Host.{Host, FileSystem, DirEntry}
use auto_mock_tools.Storage.Types.{MockResponse}
use auto_mock_tools.Loader.{parse_mock_record, load_response_from_file}
use auto_mock_tools.Loader.WellFormed.{IsWellFormed, parse_mock_record-IsWellFormed}
use auto_mock_tools.Storage.Load.{is_mock_file, join}
use auto_mock_tools.Storage.Load.Contents.{
  parsed, scan_file, scan_files, scan_listing, scan_dir, scan_dirs, scan_base_listing, scan_base,
}

module _ {F : Type 0} (host : Host F) (files : FileSystem) where
  load_response_from_file_lem :
      (path fallback : Bytes)
      → load_response_from_file host files path fallback ≡ (
          or_error read_failed (files.read_file path) >>= λ bytes.
          parse_mock_record host bytes fallback)
  unfolding load_response_from_file
  load_response_from_file_lem path fallback = refl

  pub load_response_from_file-IsWellFormed :
      (path fallback : Bytes) (r : MockResponse F)
      → load_response_from_file host files path fallback ≡ ok r
      → IsWellFormed r
  load_response_from_file-IsWellFormed path fallback r h =
      let (bytes, _, h') =
        >>=-eq-ok (or_error read_failed (files.read_file path)) _
          (rw load_response_from_file_lem at h) in
      parse_mock_record-IsWellFormed host bytes fallback r h'

  parsed-IsWellFormed :
      (o : Result (MockResponse F))
      → ((r : MockResponse F) → o ≡ ok r → IsWellFormed r)
      → All IsWellFormed (parsed o)
  parsed-IsWellFormed (ok r) h = (h r refl, tt)
  parsed-IsWellFormed (err e) h = tt

  scan_file-IsWellFormed :
      (dir mock_id : Bytes) (file : DirEntry)
      → All IsWellFormed (scan_file host files dir mock_id file)
  scan_file-IsWellFormed dir mock_id file = elim (Bool-cases (is_mock_file file)) [
    | inl mock ↦
        rw mock (
          parsed-IsWellFormed _ (load_response_from_file-IsWellFormed (join dir file.name) mock_id))
    | inr other ↦ rw other tt
  ]

  scan_files-IsWellFormed :
      (dir mock_id : Bytes) (fs : List DirEntry)
      → All IsWellFormed (scan_files host files dir mock_id fs)
  scan_files-IsWellFormed dir mock_id [] = tt
  scan_files-IsWellFormed dir mock_id (f ∷ fs) =
      All-append IsWellFormed (scan_file host files dir mock_id f) _
        (scan_file-IsWellFormed dir mock_id f) (scan_files-IsWellFormed dir mock_id fs)

  scan_listing-IsWellFormed :
      (dir mock_id : Bytes) (listing : Option (List DirEntry))
      → All IsWellFormed (scan_listing host files dir mock_id listing)
  scan_listing-IsWellFormed dir mock_id none = tt
  scan_listing-IsWellFormed dir mock_id (some fs) = scan_files-IsWellFormed dir mock_id fs

  scan_dirs-IsWellFormed :
      (base : Bytes) (entries : List DirEntry)
      → All IsWellFormed (scan_dirs host files base entries)
  scan_dirs-IsWellFormed base [] = tt
  scan_dirs-IsWellFormed base (entry ∷ rest) =
      All-append IsWellFormed (scan_dir host files base entry) _ here
        (scan_dirs-IsWellFormed base rest)
    where
      here : All IsWellFormed (scan_dir host files base entry)
      here = elim (Bool-cases entry.is_dir) [
        | inl dir ↦ rw dir (scan_listing-IsWellFormed _ entry.name _)
        | inr other ↦ rw other tt
      ]

  scan_base_listing-IsWellFormed :
      (base : Bytes) (listing : Option (List DirEntry))
      → All IsWellFormed (scan_base_listing host files base listing)
  scan_base_listing-IsWellFormed base none = tt
  scan_base_listing-IsWellFormed base (some entries) = scan_dirs-IsWellFormed base entries

  -- Every response that a mock directory holds is well formed.
  pub scan_base-IsWellFormed : (base : Bytes) → All IsWellFormed (scan_base host files base)
  scan_base-IsWellFormed base = elim (Bool-cases (files.missing base)) [
    | inl missing ↦ rw missing tt
    | inr present ↦ rw present (scan_base_listing-IsWellFormed base (files.read_dir base))
  ]
