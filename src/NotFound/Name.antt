-- ===== src/NotFound/Name.antt =====
-- The names of the files that `LogNotFound` writes.
use auto_mock_tools.Prelude.{
  ◌≡◌, refl, sym, false, Bool-cases, inl, inr, ◌++◌, if◌then◌else◌, Bytes, codes, is_empty,
  has_byte, cut_at, ok, or_error, >>=-eq-ok, marshal_failed,
}
use auto_mock_tools.Host.{Host}
use auto_mock_tools.Recorder.{Disk}
use auto_mock_tools.Recorder.Replay.{written_to-eq-ok}
use auto_mock_tools.Recorder.Name.{clean, has_byte-append, has_byte-clean}
use auto_mock_tools.NotFound.{
  Exchange, sanitize_content_type, logged_type, logged_record, file_name, log_not_found,
}

module _ {F : Type 0} (host : Host F) where
  sanitize_content_type_lem :
      (content_type : Bytes)
      → sanitize_content_type host content_type ≡ (
          let name = clean (host.trim_space (cut_at b';' content_type)) in
          if is_empty name then codes "unknown" else name)
  unfolding sanitize_content_type clean
  sanitize_content_type_lem content_type = refl

  sanitize_content_type-no_slash :
      (content_type : Bytes) → has_byte b'/' (sanitize_content_type host content_type) ≡ false
  unfolding has_byte
  sanitize_content_type-no_slash content_type =
      let name = clean (host.trim_space (cut_at b';' content_type)) in
      rw sanitize_content_type_lem (elim (Bool-cases (is_empty name)) [
        | inl empty ↦ rw empty refl
        | inr some_name ↦ rw some_name (has_byte-clean _)
      ])

module _ {F : Type 0} (host : Host F) (disk : Disk) where
  has_byte-file_name :
      (accept : Bytes)
      → has_byte b'/' disk.file_time ≡ false
      → has_byte b'/' disk.random_hex ≡ false
      → has_byte b'/' (file_name host disk accept) ≡ false
  unfolding file_name has_byte
  has_byte-file_name accept time hex =
      let rest = disk.random_hex ++ codes ".json" in
      has_byte-append b'/' (sanitize_content_type host (logged_type host accept))
        (codes "_" ++ (disk.file_time ++ (codes "_" ++ rest)))
        (sanitize_content_type-no_slash host (logged_type host accept))
        (has_byte-append b'/' disk.file_time (codes "_" ++ rest) time
          (has_byte-append b'/' disk.random_hex (codes ".json") hex refl))

  -- The file that LogNotFound writes is a direct entry of the log directory, whatever the request
  -- and its Accept header hold, if the clock and the random source give no '/'.
  pub log_not_found_stays :
      (base_dir id time file bytes : Bytes) (exchange : Exchange)
      → has_byte b'/' disk.file_time ≡ false
      → has_byte b'/' disk.random_hex ≡ false
      → log_not_found host disk base_dir id time exchange ≡ ok (file, bytes)
      → (name : Bytes) × (file ≡ disk.join base_dir name) × (has_byte b'/' name ≡ false)
  unfolding log_not_found
  log_not_found_stays base_dir id time file bytes exchange at hex h =
      let marshalled = host.marshal_indent (logged_record host disk id time exchange) in
      let (text, _, h') = >>=-eq-ok (or_error marshal_failed marshalled) _ h in
      (
        file_name host disk exchange.accept,
        sym (written_to-eq-ok host disk base_dir _ text file bytes h').0,
        has_byte-file_name exchange.accept at hex,
      )
