-- ===== src/Recorder/Name.antt =====
-- The names of the files that the recorder writes.
use auto_mock_tools.Prelude.{
  ℕ, ◌≡◌, ◌≢◌, refl, sym, false, Bool-cases, inl, inr, [], ◌∷◌, ◌++◌, List, if◌then◌else◌, arith,
  Bytes, codes, is_empty, has_byte, cut_at, Assoc, ok, err, or_error, >>=-eq-ok, marshal_failed,
  write_failed,
}
use auto_mock_tools.Json.{Json}
use auto_mock_tools.Host.{Host, ℤ}
use auto_mock_tools.Recorder.{
  Disk, Upstream, RequestData, replace_byte, sanitize_content_type, upstream_type, mock_dir, save,
  record_pair, record_sse_pair,
}
use auto_mock_tools.Recorder.Replay.{written_to-eq-ok}

pub has_byte-append :
    (c : ℕ) (s t : Bytes)
    → has_byte c s ≡ false
    → has_byte c t ≡ false
    → has_byte c (s ++ t) ≡ false
unfolding has_byte
has_byte-append c [] t hs ht = ht
has_byte-append c (d ∷ s) t hs ht = ground (arith, has_byte-append c s t)

has_byte-replace_byte :
    (old new : ℕ) (s : Bytes) → new ≢ old → has_byte old (replace_byte old new s) ≡ false
unfolding has_byte replace_byte
has_byte-replace_byte old new [] ne = refl
has_byte-replace_byte old new (c ∷ s) ne = ground (arith, has_byte-replace_byte old new s ne)

-- A replacement brings back no other byte than the new one.
replace_byte_keeps_out :
    (c old new : ℕ) (s : Bytes)
    → new ≢ c
    → has_byte c s ≡ false
    → has_byte c (replace_byte old new s) ≡ false
unfolding has_byte replace_byte
replace_byte_keeps_out c old new [] ne h = refl
replace_byte_keeps_out c old new (d ∷ s) ne h =
    ground (arith, replace_byte_keeps_out c old new s ne)

-- the three replacements
unfoldable pub clean : Bytes → Bytes
clean s = replace_byte b'.' b'_' (replace_byte b'+' b'_' (replace_byte b'/' b'_' s))

pub has_byte-clean : (s : Bytes) → has_byte b'/' (clean s) ≡ false
unfolding clean
has_byte-clean s = replace_byte_keeps_out b'/' b'.' b'_' _ (ground arith) (
    replace_byte_keeps_out b'/' b'+' b'_' _ (ground arith)
      (has_byte-replace_byte b'/' b'_' s (ground arith)))

module _ {F : Type 0} (host : Host F) where
  sanitize_content_type_lem :
      (content_type : Bytes)
      → sanitize_content_type host content_type ≡ (
          let name = clean (host.trim_space (cut_at b';' content_type)) in
          if is_empty name then codes "unknown" else name)
  unfolding sanitize_content_type clean
  sanitize_content_type_lem content_type = refl

  sanitize_content_type-no_slash :
      (content_type : Bytes) → has_byte b'/' (sanitize_content_type host content_type) ≡ false
  unfolding has_byte
  sanitize_content_type-no_slash content_type =
      let name = clean (host.trim_space (cut_at b';' content_type)) in
      rw sanitize_content_type_lem (elim (Bool-cases (is_empty name)) [
        | inl empty ↦ rw empty refl
        | inr some_name ↦ rw some_name (has_byte-clean _)
      ])

-- the folder of a mock id
abbrev pub folder_of : Disk → Bytes → Bytes → Bytes
folder_of disk base_dir mock_id =
    disk.join base_dir (if is_empty mock_id then codes "default" else mock_id)

-- The file is a direct entry of the folder of the mock id.
abbrev pub IsEntryOf : Disk → Bytes → Bytes → Bytes → Type 0
IsEntryOf disk base_dir mock_id file =
    (name : Bytes) × (file ≡ disk.join (folder_of disk base_dir mock_id) name)
    × (has_byte b'/' name ≡ false)

module _ {F : Type 0} (host : Host F) (disk : Disk) (base_dir : Bytes)
    (time : has_byte b'/' disk.file_time ≡ false) (hex : has_byte b'/' disk.random_hex ≡ false)
    (request : RequestData F) (file bytes : Bytes) where
  clear_end :
      (s t : Bytes)
      → has_byte b'/' s ≡ false
      → has_byte b'/' t ≡ false
      → has_byte b'/' (s ++ t) ≡ false
  clear_end = has_byte-append b'/'

  file_name-no_slash :
      (kind : Bytes)
      → has_byte b'/' kind ≡ false
      → has_byte b'/'
          (kind ++ codes "_" ++ disk.file_time ++ codes "_" ++ disk.random_hex ++ codes ".json")
        ≡ false
  unfolding has_byte
  file_name-no_slash kind clear =
      let timed = kind ++ codes "_" ++ disk.file_time in
      clear_end (timed ++ codes "_" ++ disk.random_hex) (codes ".json")
        (clear_end (timed ++ codes "_") disk.random_hex
          (clear_end timed (codes "_")
            (clear_end (kind ++ codes "_") disk.file_time (clear_end kind (codes "_") clear refl)
              time)
            refl)
          hex)
        refl

  save-IsEntryOf :
      (kind : Bytes) (j : Json F)
      → has_byte b'/' kind ≡ false
      → save host disk base_dir request kind j ≡ ok (file, bytes)
      → IsEntryOf disk base_dir request.mock_id file
  unfolding save has_byte
  save-IsEntryOf kind j clear h =
      elim (Bool-cases (disk.make_dir_all (mock_dir host disk base_dir request))) [
        | inr failed ↦ let e : err write_failed ≡ ok (file, bytes) = rw failed at h in cc
        | inl made ↦
            let (text, _, h') =
              >>=-eq-ok (or_error marshal_failed (host.marshal_indent j)) _ (rw made at h) in
            (
              _,
              sym (written_to-eq-ok host disk base_dir _ text file bytes h').0,
              file_name-no_slash kind clear,
            )
      ]

  pub record_pair-IsEntryOf :
      (response : Upstream) (delay : F)
      → record_pair host disk base_dir request response delay ≡ ok (file, bytes)
      → IsEntryOf disk base_dir request.mock_id file
  unfolding record_pair
  record_pair-IsEntryOf response delay =
      save-IsEntryOf _ _ (sanitize_content_type-no_slash host (upstream_type host response))

  pub record_sse_pair-IsEntryOf :
      (status_code : ℤ) (events : List (Json F)) (delay : F) (saved_headers : Assoc Bytes)
      → record_sse_pair host disk base_dir request status_code events delay saved_headers
        ≡ ok (file, bytes)
      → IsEntryOf disk base_dir request.mock_id file
  unfolding record_sse_pair has_byte
  record_sse_pair-IsEntryOf status_code events delay saved_headers =
      save-IsEntryOf (codes "text_event-stream") _ refl
