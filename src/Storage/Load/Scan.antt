-- ===== src/Storage/Load/Scan.antt =====
-- `NewMockStorage` indexes exactly what the mock directory holds.
use auto_mock_tools.Prelude.{
  ◌≡◌, ◌⊎◌, refl, inl, inr, true, false, List, [], Option, none, some, if◌then◌else◌, Bool-cases,
  Bytes, Result, ok, err, read_failed,
}
use auto_mock_tools.Host.{Host, FileSystem, DirEntry}
use auto_mock_tools.Storage.Types.{MockResponse, MockStorage}
use auto_mock_tools.Storage.Find.Catalog.{Indexes}
use auto_mock_tools.Storage.Stats.{cache_responses}
use auto_mock_tools.Storage.Load.{load_base, empty_storage, new_mock_storage}
use auto_mock_tools.Storage.Load.Contents.{scan_base}
use auto_mock_tools.Storage.Load.Loop.{Loaded, load_dirs-Loaded}

module _ {F Op : Type 0} (host : Host F) where
  cache_responses-Loaded :
      (base : Bytes) (rs : List (MockResponse F)) (s : MockStorage F Op)
      → Loaded base rs s
      → Loaded base rs (cache_responses host s)
  unfolding cache_responses
  cache_responses-Loaded base rs s h = rw h.disabled (record {
    base_dir = h.base_dir;
    indexed = record { by_key = h.indexed.by_key; by_path = h.indexed.by_path };
    disabled = refl;
  })

module _ {F : Type 0} (Op : Type 0) (host : Host F) (files : FileSystem) where
  -- the base directory is not there, or its listing can be read
  abbrev pub Listable : Bytes → Type 0
  Listable base =
      (files.missing base ≡ true)
      ⊎ ((entries : List DirEntry) × (files.read_dir base ≡ some entries))

  -- the outcomes of `NewMockStorage`
  abbrev pub LoadOutcome : Bytes → Result (MockStorage F Op) → Type 0
  LoadOutcome base (ok s) =
      Indexes (scan_base host files base) s × (s.scenarios_enabled ≡ false) × Listable base
  LoadOutcome base (err e) =
      (files.missing base ≡ false) × (files.read_dir base ≡ none) × (e ≡ read_failed)

  new_mock_storage_lem :
      (base : Bytes)
      → new_mock_storage {Op = Op} host files base ≡ (
          if files.missing base
          then ok (empty_storage host files base)
          else load_base host files (empty_storage host files base) (files.read_dir base))
  unfolding new_mock_storage
  new_mock_storage_lem base = refl

  load_base-LoadOutcome :
      (base : Bytes) (listing : Option (List DirEntry))
      → files.missing base ≡ false
      → files.read_dir base ≡ listing
      → LoadOutcome base (load_base {Op = Op} host files (empty_storage host files base) listing)
  load_base-LoadOutcome base none present e = (present, e, refl)
  load_base-LoadOutcome base (some entries) present e =
      let start : Loaded {Op = Op} base [] (empty_storage host files base) = record {
        base_dir = refl;
        indexed = record { by_key = refl; by_path = refl };
        disabled = refl;
      } in
      let all =
        cache_responses-Loaded host base _ _
          (load_dirs-Loaded host files base [] (empty_storage host files base) entries start) in
      rw (present, e) (all.indexed, all.disabled, inr (entries, refl))

  -- NewMockStorage fails exactly where the base directory exists and cannot be read: an error
  -- comes only there, and a store only where the directory is missing or its listing can be read.
  -- That store, with scenarios disabled, indexes under both keys the responses of the mock files
  -- below it in listing order, skipping files that do not parse and folders that cannot be read.
  pub new_mock_storage-LoadOutcome :
      (base : Bytes) → LoadOutcome base (new_mock_storage {Op = Op} host files base)
  new_mock_storage-LoadOutcome base =
      rw new_mock_storage_lem (elim (Bool-cases (files.missing base)) [
        | inl missing ↦
            rw (missing, missing) (record { by_key = refl; by_path = refl }, refl, inl refl)
        | inr present ↦ rw present (load_base-LoadOutcome base (files.read_dir base) present refl)
      ])
