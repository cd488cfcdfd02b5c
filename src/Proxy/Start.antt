-- ===== src/Proxy/Start.antt =====
-- cmd/auto-proxy/main.go, and the constructors that it calls: from the flags to the proxy handler.
use auto_mock_tools.Prelude.{Bool, not, ◌&&◌, Option, none, some, if◌then◌else◌, Bytes, is_empty}
use auto_mock_tools.Recorder.{Disk}
use auto_mock_tools.Proxy.Handle.{ProxyHandler}

-- The flags that the handler depends on; the others are the address to listen on.
pub record ProxyFlags : Type 0 where
  pub log_dir : Bytes
  pub target : Bytes
  pub client_cert : Bytes
  pub client_key : Bytes

-- a recorder is its base directory
unfoldable pub new_recorder : Disk → Bytes → Option Bytes
new_recorder disk base_dir = if disk.make_dir_all base_dir then some base_dir else none

unfoldable pub new_proxy_handler : Bytes → Bytes → ProxyHandler
new_proxy_handler recorder target_url = record {
  base_dir = recorder;
  target_url = target_url;
  certificate = none;
}

-- `load_key_pair` says whether `tls.LoadX509KeyPair` can read the pair.
module _ (load_key_pair : Bytes → Bytes → Bool) where
  unfoldable pub load_client_certificate : Bytes → Bytes → ProxyHandler → Option ProxyHandler
  load_client_certificate cert_file key_file proxy =
      if load_key_pair cert_file key_file
      then some (record proxy { certificate = some (cert_file, key_file) })
      else none

  unfoldable pub configure_proxy : ProxyFlags → ProxyHandler → Option ProxyHandler
  unfolding load_client_certificate
  configure_proxy flags proxy =
      if not (is_empty flags.client_cert) && not (is_empty flags.client_key)
      then load_client_certificate flags.client_cert flags.client_key proxy
      else some proxy

  -- `main` up to the start of the server; no proxy is `log.Fatal`
  unfoldable pub start_proxy : Disk → ProxyFlags → Option ProxyHandler
  unfolding new_recorder new_proxy_handler configure_proxy
  start_proxy disk flags =
      if is_empty flags.target then none else elim (new_recorder disk flags.log_dir) [
        | none ↦ none
        | some recorder ↦ configure_proxy flags (new_proxy_handler recorder flags.target)
      ]
