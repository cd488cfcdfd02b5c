-- ===== src/Storage/Load/Loop.antt =====
-- The loops of `loadResponses` index the mock files that they visit, in order.
use mathlib.Core.List.{append-nil, append_assoc}
use auto_mock_tools.Prelude.{
  ◌≡◌, refl, sym, ap, ◌∙◌, inl, inr, false, List, [], ◌∷◌, ◌++◌, Option, none, some, if◌then◌else◌,
  Bool-cases, Bytes, Result, ok, err,
}
use auto_mock_tools.Host.{Host, FileSystem, DirEntry}
use auto_mock_tools.Loader.{load_response_from_file}
use auto_mock_tools.Storage.Types.{MockResponse, MockStorage}
use auto_mock_tools.Storage.Index.{response_key, path_mock_id_key, index_response, append_at}
use auto_mock_tools.Storage.Index.Buckets.{index-append}
use auto_mock_tools.Storage.Find.Catalog.{Indexes}
use auto_mock_tools.Storage.Load.{
  is_mock_file, join, load_file, load_files, load_listing, load_dir, load_dirs, index_parsed,
}
use auto_mock_tools.Storage.Load.Contents.{
  parsed, scan_file, scan_files, scan_listing, scan_dir, scan_dirs,
}

module _ {F Op : Type 0} where
  -- the state of the loop, with the responses loaded so far
  pub record Loaded (base : Bytes) (rs : List (MockResponse F)) (s : MockStorage F Op)
      : Type 0 where
    pub base_dir : s.base_dir ≡ base
    pub indexed : Indexes rs s
    pub disabled : s.scenarios_enabled ≡ false

  index_response-Loaded :
      (base : Bytes) (rs : List (MockResponse F)) (s : MockStorage F Op) (r : MockResponse F)
      → Loaded base rs s
      → Loaded base (rs ++ r ∷ []) (index_response s r)
  unfolding index_response
  index_response-Loaded base rs s r h = record {
    base_dir = h.base_dir;
    indexed = record {
      by_key =
          ap (append_at (response_key r) r) h.indexed.by_key
          ∙ sym (index-append response_key [] rs (r ∷ []));
      by_path =
          ap (append_at (path_mock_id_key r) r) h.indexed.by_path
          ∙ sym (index-append path_mock_id_key [] rs (r ∷ []));
    };
    disabled = h.disabled;
  }

  Loaded-nil :
      {base : Bytes} {rs : List (MockResponse F)} {s : MockStorage F Op}
      → Loaded base rs s
      → Loaded base (rs ++ []) s
  Loaded-nil h = rw append-nil h

  index_parsed-Loaded :
      (base : Bytes) (rs : List (MockResponse F)) (s : MockStorage F Op)
      (o : Result (MockResponse F))
      → Loaded base rs s
      → Loaded base (rs ++ parsed o) (index_parsed s o)
  index_parsed-Loaded base rs s (ok r) h = index_response-Loaded base rs s r h
  index_parsed-Loaded base rs s (err e) h = Loaded-nil h

module _ {F Op : Type 0} (host : Host F) (files : FileSystem) (base : Bytes) where
  load_file_lem :
      (dir mock_id : Bytes) (s : MockStorage F Op) (file : DirEntry)
      → load_file host files dir mock_id s file ≡ (
          if is_mock_file file
          then index_parsed s (load_response_from_file host files (join dir file.name) mock_id)
          else s)
  unfolding load_file
  load_file_lem dir mock_id s file = refl

  load_file-Loaded :
      (dir mock_id : Bytes) (rs : List (MockResponse F)) (s : MockStorage F Op) (file : DirEntry)
      → Loaded base rs s
      → Loaded base
          (rs ++ scan_file host files dir mock_id file)
          (load_file host files dir mock_id s file)
  load_file-Loaded dir mock_id rs s file h = elim (Bool-cases (is_mock_file file)) [
    | inl mock ↦ rw (load_file_lem, mock) (index_parsed-Loaded base rs s _ h)
    | inr other ↦ rw (load_file_lem, other) (Loaded-nil h)
  ]

  load_files_nil :
      (dir mock_id : Bytes) (s : MockStorage F Op) → load_files host files dir mock_id s [] ≡ s
  unfolding load_files
  load_files_nil dir mock_id s = refl

  load_files_cons :
      (dir mock_id : Bytes) (s : MockStorage F Op) (file : DirEntry) (rest : List DirEntry)
      → load_files host files dir mock_id s (file ∷ rest)
        ≡ load_files host files dir mock_id (load_file host files dir mock_id s file) rest
  unfolding load_files
  load_files_cons dir mock_id s file rest = refl

  load_files-Loaded :
      (dir mock_id : Bytes) (rs : List (MockResponse F)) (s : MockStorage F Op) (fs : List DirEntry)
      → Loaded base rs s
      → Loaded base
          (rs ++ scan_files host files dir mock_id fs)
          (load_files host files dir mock_id s fs)
  load_files-Loaded dir mock_id rs s [] h = rw load_files_nil (Loaded-nil h)
  load_files-Loaded dir mock_id rs s (file ∷ rest) h =
      rw (load_files_cons, ← append_assoc)
        (load_files-Loaded dir mock_id (rs ++ scan_file host files dir mock_id file)
          (load_file host files dir mock_id s file) rest (load_file-Loaded dir mock_id rs s file h))

  load_listing-Loaded :
      (dir mock_id : Bytes) (rs : List (MockResponse F)) (s : MockStorage F Op)
      (listing : Option (List DirEntry))
      → Loaded base rs s
      → Loaded base
          (rs ++ scan_listing host files dir mock_id listing)
          (load_listing host files dir mock_id s listing)
  load_listing-Loaded dir mock_id rs s none h = Loaded-nil h
  load_listing-Loaded dir mock_id rs s (some fs) h = load_files-Loaded dir mock_id rs s fs h

  load_dir_lem :
      (s : MockStorage F Op) (entry : DirEntry)
      → s.base_dir ≡ base
      → load_dir host files s entry ≡ (
          if entry.is_dir
          then load_listing host files
              (join base entry.name)
              entry.name
              s
              (files.read_dir (join base entry.name))
          else s)
  unfolding load_dir
  load_dir_lem s entry h =
      ap
        (λ b.
          if entry.is_dir
          then load_listing host files (join b entry.name) entry.name s
              (files.read_dir (join b entry.name))
          else s)
        h

  load_dir-Loaded :
      (rs : List (MockResponse F)) (s : MockStorage F Op) (entry : DirEntry)
      → Loaded base rs s
      → Loaded base (rs ++ scan_dir host files base entry) (load_dir host files s entry)
  load_dir-Loaded rs s entry h =
      rw (load_dir_lem s entry h.base_dir) (elim (Bool-cases entry.is_dir) [
        | inl dir ↦ rw dir (load_listing-Loaded _ entry.name rs s _ h)
        | inr other ↦ rw other (Loaded-nil h)
      ])

  load_dirs_nil : (s : MockStorage F Op) → load_dirs host files s [] ≡ s
  unfolding load_dirs
  load_dirs_nil s = refl

  load_dirs_cons :
      (s : MockStorage F Op) (entry : DirEntry) (rest : List DirEntry)
      → load_dirs host files s (entry ∷ rest)
        ≡ load_dirs host files (load_dir host files s entry) rest
  unfolding load_dirs
  load_dirs_cons s entry rest = refl

  pub load_dirs-Loaded :
      (rs : List (MockResponse F)) (s : MockStorage F Op) (entries : List DirEntry)
      → Loaded base rs s
      → Loaded base (rs ++ scan_dirs host files base entries) (load_dirs host files s entries)
  load_dirs-Loaded rs s [] h = rw load_dirs_nil (Loaded-nil h)
  load_dirs-Loaded rs s (entry ∷ rest) h =
      rw (load_dirs_cons, ← append_assoc)
        (load_dirs-Loaded (rs ++ scan_dir host files base entry) (load_dir host files s entry) rest
          (load_dir-Loaded rs s entry h))
