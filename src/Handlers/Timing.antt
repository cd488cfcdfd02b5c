-- ===== src/Handlers/Timing.antt =====
-- Delays and jitter.
use auto_mock_tools.Prelude.{◌≡◌, false, arith}
use auto_mock_tools.Host.{Host}
use auto_mock_tools.Handlers.{jittered_delay}

module _ {F : Type 0} (host : Host F) where
  -- The delay with jitter is not negative if the recorded delay is not.
  pub jittered_delay_not_negative :
      (jitter random delay : F)
      → host.lt delay host.zero ≡ false
      → host.lt (jittered_delay host jitter random delay) host.zero ≡ false
  unfolding jittered_delay
  jittered_delay_not_negative jitter random delay h = ground (arith, host.lt-zero-zero)
