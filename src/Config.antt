-- ===== src/Config.antt =====
-- cmd/sshcustomd/main.go: the configuration, its defaults and the addresses derived from it.
pub mod Data
pub mod Patch
pub mod Patching
pub mod Sizes
use sshcustom_vpnchain.Base.{
  ℕ, ◌+◌, ◌-◌, ◌*◌, ◌/◌, ltb, if◌then◌else◌, is_empty, ℤ, pos, negsuc, nonpositive, Bytes, codes,
}
use sshcustom_vpnchain.Base.Decimal.{itoa_int}
use sshcustom_vpnchain.Net.HostPort.{join_host_port}
use sshcustom_vpnchain.Config.Data.{Config}
use sshcustom_vpnchain.Base.{magnitude}

-- `secondsDefault`.
abbrev pub seconds_default : ℤ → ℤ → ℤ
seconds_default v def = if nonpositive v then def else v

-- `socksAddr`.
unfoldable pub socks_addr : Config → Bytes
socks_addr cfg =
    let host =
      if is_empty cfg.local_proxy.socks_host
      then codes "127.0.0.1"
      else cfg.local_proxy.socks_host in
    let port =
      if nonpositive cfg.local_proxy.socks_port then pos 1080 else cfg.local_proxy.socks_port in
    join_host_port host (itoa_int port)

-- `transparentAddr` and `transparentUDPAddr`.
unfoldable pub transparent_addr : Config → Bytes
transparent_addr cfg =
    let port =
      if nonpositive cfg.transparent_proxy.tcp_port
      then pos 10810
      else cfg.transparent_proxy.tcp_port in
    join_host_port (codes "0.0.0.0") (itoa_int port)

unfoldable pub transparent_udp_addr : Config → Bytes
transparent_udp_addr cfg =
    let port =
      if nonpositive cfg.transparent_proxy.udp_port
      then pos 10811
      else cfg.transparent_proxy.udp_port in
    join_host_port (codes "0.0.0.0") (itoa_int port)

unfoldable pub clamp_idle : ℤ → ℕ
clamp_idle (pos n) = if ltb n 30 then 30 else if ltb 3600 n then 3600 else n
clamp_idle (negsuc n) = 30

-- `streamIdleTimeout`, in seconds.
unfoldable pub stream_idle_timeout : Config → ℕ
unfolding clamp_idle
stream_idle_timeout cfg =
    clamp_idle (seconds_default cfg.performance.stream_idle_timeout_sec (pos 150))

abbrev pub default_copy_buffer_size : ℕ
default_copy_buffer_size = 128 * 1024

abbrev pub max_copy_buffer_size : ℕ
max_copy_buffer_size = 256 * 1024

-- `normalizedCopyBufferSize`; the last step rounds up to whole blocks of 32 KiB.
unfoldable pub normalized_copy_buffer_size : ℤ → ℕ
normalized_copy_buffer_size n =
    let q = 32 * 1024 in
    let given = if nonpositive n then default_copy_buffer_size else magnitude n in
    let raised = if ltb given q then q else given in
    let capped = if ltb max_copy_buffer_size raised then max_copy_buffer_size else raised in
    (capped + q - 1) / q * q
