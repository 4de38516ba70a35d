-- ===== src/Config/Sizes.antt =====
-- The bounds on the values that performance settings give.
use sshcustom_vpnchain.Base.{
  ◌+◌, ◌%◌, ◌≤◌, ◌≡◌, true, ◌&&◌, ◌||◌, arith, ltb, leb, ◌==◌, ℤ, pos, negsuc, magnitude,
  nonpositive,
}
use sshcustom_vpnchain.Config.Data.{Config}
use sshcustom_vpnchain.Config.{normalized_copy_buffer_size, stream_idle_timeout, clamp_idle}

-- Whatever number is configured, a copy buffer has a whole number of blocks of 32 KiB, at least one
-- and at most eight, and a configured size between these limits is rounded up by less than a block.
pub normalized_copy_buffer_size-bounds :
    (n : ℤ)
    → let r = normalized_copy_buffer_size n in
      (r % 32768 ≡ 0)
      × ((32768 ≤ r)
          × ((r ≤ 262144)
              × (ltb (magnitude n) 32768
                    || nonpositive n
                    || ltb 262144 (magnitude n)
                    || (leb (magnitude n) r && ltb r (magnitude n + 32768))
                  ≡ true)))
unfolding normalized_copy_buffer_size
normalized_copy_buffer_size-bounds (pos n) =
    (ground arith, (ground arith, (ground arith, ground arith)))
normalized_copy_buffer_size-bounds (negsuc n) =
    (ground arith, (ground arith, (ground arith, ground arith)))

-- Whatever number is configured, a stream may be idle for at least 30 seconds and at most an hour,
-- and a configured time between these limits is the one that is used.
pub stream_idle_timeout-bounds :
    (cfg : Config)
    → let n = cfg.performance.stream_idle_timeout_sec in
      let t = stream_idle_timeout cfg in
      (30 ≤ t)
      × ((t ≤ 3600)
          × (nonpositive n || ltb (magnitude n) 30 || ltb 3600 (magnitude n) || t == magnitude n
              ≡ true))
unfolding stream_idle_timeout clamp_idle
stream_idle_timeout-bounds cfg = (ground arith, (ground arith, ground arith))
