-- ===== src/Proxy/Started.antt =====
-- A proxy that is started with flags, and where it writes its files.
use auto_mock_tools.Prelude.{
  ◌≡◌, refl, sym, subst, ap, ◌⊎◌, Bool, true, false, not, ◌&&◌, inl, inr, Bool-cases, Option, none,
  some, Bytes, is_empty, has_byte, ok, if◌then◌else◌, ℕ,
}
use auto_mock_tools.Host.{Host, ℤ}
use auto_mock_tools.Recorder.{Disk}
use auto_mock_tools.Recorder.Name.{IsEntryOf}
use auto_mock_tools.Proxy.Forward.{Incoming}
use auto_mock_tools.Proxy.Handle.{ProxyHandler, Network, dispatch}
use auto_mock_tools.Proxy.Handle.Files.{dispatch_stays}
use auto_mock_tools.Proxy.Start.{
  ProxyFlags, new_recorder, new_proxy_handler, load_client_certificate, configure_proxy,
  start_proxy,
}

module _ (load_key_pair : Bytes → Bytes → Bool) (disk : Disk) (flags : ProxyFlags) where
  -- both files of a client certificate are named
  abbrev pub has_certificate : Bool
  has_certificate = not (is_empty flags.client_cert) && not (is_empty flags.client_key)

  abbrev pub certificate_if : Bool → Option (Bytes × Bytes)
  certificate_if given = if given then some (flags.client_cert, flags.client_key) else none

  -- What a start gives: the settings of the flags, or the reason why there is no proxy.
  abbrev pub ProxyOutcome : Option ProxyHandler → Type 0
  ProxyOutcome none =
      (is_empty flags.target ≡ true)
      ⊎ (disk.make_dir_all flags.log_dir ≡ false)
      ⊎ ((has_certificate ≡ true) × (load_key_pair flags.client_cert flags.client_key ≡ false))
  ProxyOutcome (some proxy) =
      (is_empty flags.target ≡ false)
      × (proxy.base_dir ≡ flags.log_dir)
      × (proxy.target_url ≡ flags.target)
      × (proxy.certificate ≡ certificate_if has_certificate)

  configured-ProxyOutcome :
      is_empty flags.target ≡ false
      → ProxyOutcome
          (configure_proxy load_key_pair flags (new_proxy_handler flags.log_dir flags.target))
  unfolding configure_proxy load_client_certificate new_proxy_handler
  configured-ProxyOutcome named = elim (Bool-cases has_certificate) [
    | inr without ↦ rw without (named, refl, refl, ap certificate_if (sym without))
    | inl with_it ↦ elim (Bool-cases (load_key_pair flags.client_cert flags.client_key)) [
      | inl loaded ↦ rw (with_it, loaded) (named, refl, refl, ap certificate_if (sym with_it))
      | inr refused ↦ rw (with_it, refused) (inr (inr (with_it, refused)))
    ]
  ]

  -- A start of the proxy fails only without a target, where the log directory cannot be made, or
  -- where both files of a client certificate are named and cannot be loaded; a proxy that is
  -- started has the log directory and the target of its flags, and a client certificate exactly
  -- if both files are named.
  pub start_proxy-ProxyOutcome : ProxyOutcome (start_proxy load_key_pair disk flags)
  unfolding start_proxy new_recorder
  start_proxy-ProxyOutcome = elim (Bool-cases (is_empty flags.target)) [
    | inl empty ↦ rw empty (inl empty)
    | inr named ↦ elim (Bool-cases (disk.make_dir_all flags.log_dir)) [
      | inr failed ↦ rw (named, failed) (inr (inl failed))
      | inl made ↦ rw (named, made) (configured-ProxyOutcome named)
    ]
  ]

  module _ {F : Type 0} (host : Host F) (scan_hex : Bytes → Option ℤ) (clock : ℕ → F) (elapsed : F)
      (network : Network) (proxy : ProxyHandler)
      (e : start_proxy load_key_pair disk flags ≡ some proxy) where
    -- Each file that a started proxy records, whatever the request, its headers and the network
    -- are, is a direct entry of one folder, which the path join gives for the log directory of
    -- the flags and the x-mock-id of the request as it is, or 'default' without one, if the clock
    -- and the random source give no '/'.
    pub started_proxy_stays :
        (id now file bytes : Bytes) (incoming : Incoming)
        → has_byte b'/' disk.file_time ≡ false
        → has_byte b'/' disk.random_hex ≡ false
        → (dispatch host scan_hex clock elapsed disk proxy network id now incoming).recorded
          ≡ some (ok (file, bytes))
        → IsEntryOf disk flags.log_dir incoming.mock_id file
    started_proxy_stays id now file bytes incoming time hex h =
        let (_, base, _, _) = subst ProxyOutcome e start_proxy-ProxyOutcome in
        subst (λ dir. IsEntryOf disk dir incoming.mock_id file) base
          (dispatch_stays host scan_hex clock elapsed disk proxy network time hex file bytes id now
            incoming h)
