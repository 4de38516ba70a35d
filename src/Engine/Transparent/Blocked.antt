-- ===== src/Engine/Transparent/Blocked.antt =====
-- Which IPv4 endpoints `isLocalOrBlockedTarget` holds back, and what the kernel's answer becomes.
use sshcustom_vpnchain.Base.{
  ℕ, ◌+◌, ◌*◌, ◌/◌, ◌%◌, ◌^◌, ◌≤◌, ◌<◌, ◌≡◌, ap, ◌∙◌, Bool, ◌&&◌, ◌||◌, some, [], ◌∷◌, arith, ◌==◌,
  pos, Bytes,
}
use sshcustom_vpnchain.Base.Decimal.{itoa, atoi-itoa}
use sshcustom_vpnchain.Net.Ip.{ipv4, ipv4_string, to4}
use sshcustom_vpnchain.Net.IpClass.{is_loopback, is_unspecified, is_multicast}
use sshcustom_vpnchain.Net.ParseIp.Printed.{parse_ip-ipv4_string}
use sshcustom_vpnchain.Net.HostPort.{join_host_port}
use sshcustom_vpnchain.Net.HostPort.Joined.{split_host_port-join}
use sshcustom_vpnchain.Config.Data.{Config}
use sshcustom_vpnchain.Engine.Transparent.{
  Sockaddr, answered, swapped, original_dst, is_local_or_blocked_target, blocked_pair, blocked_ip,
  or_failed,
}
use sshcustom_vpnchain.Base.{int_eq}

-- `a.b.c.d:port`.
abbrev pub endpoint : ℕ → ℕ → ℕ → ℕ → ℕ → Bytes
endpoint a b c d port = join_host_port (ipv4_string a b c d) (itoa port)

-- The endpoints to hold back: the daemon's own two ports, and the networks 127/8, 224/4 and the
-- address 0.0.0.0.
abbrev pub is_own_or_local : Config → ℕ → ℕ → ℕ → ℕ → ℕ → Bool
is_own_or_local cfg a b c d port =
    int_eq (pos port) cfg.api.port
    || (int_eq (pos port) cfg.local_proxy.socks_port
        || (a == 127 || (a == 0 && (b == 0 && (c == 0 && d == 0)) || a / 16 == 14)))

blocked-ipv4 :
    (cfg : Config) (a b c d port : ℕ)
    → port < 2 ^ 63
    → blocked_ip cfg (itoa port) (some (ipv4 a b c d)) ≡ is_own_or_local cfg a b c d port
unfolding blocked_ip or_failed is_loopback is_unspecified is_multicast to4
blocked-ipv4 cfg a b c d port h = rw (atoi-itoa port h) (ground arith)

-- For every IPv4 endpoint, `isLocalOrBlockedTarget` reads the text back as the address and port that
-- it was written from, and holds back exactly the endpoints with the daemon's API or SOCKS port, as
-- they stand in the configuration, and those in 127/8, in 224/4 and at 0.0.0.0.
pub is_local_or_blocked_target-endpoint :
    (cfg : Config) (a b c d port : ℕ)
    → a ≤ 255
    → b ≤ 255
    → c ≤ 255
    → d ≤ 255
    → port < 2 ^ 63
    → is_local_or_blocked_target (endpoint a b c d port) cfg ≡ is_own_or_local cfg a b c d port
unfolding is_local_or_blocked_target blocked_pair
is_local_or_blocked_target-endpoint cfg a b c d port ha hb hc hd hp =
    ap (blocked_pair cfg) (split_host_port-join a b c d port)
    ∙ ap (blocked_ip cfg (itoa port)) (parse_ip-ipv4_string a b c d ha hb hc hd)
    ∙ blocked-ipv4 cfg a b c d port hp

-- A `sockaddr_in` as the kernel fills it in: the port in network order, read by a processor that
-- takes the low byte first.
abbrev pub sockaddr_in : ℕ → ℕ → ℕ → ℕ → ℕ → Sockaddr
sockaddr_in a b c d port = record {
  family = 2;
  port = port % 256 * 256 + port / 256;
  addr = a ∷ b ∷ c ∷ d ∷ [];
}

-- The original destination of a redirected connection survives the way through the kernel's
-- `sockaddr_in`, whose port has its bytes the other way round.
pub original_dst-sockaddr_in :
    (a b c d port : ℕ)
    → port < 2 ^ 16
    → original_dst (answered (sockaddr_in a b c d port)) ≡ some (endpoint a b c d port)
unfolding original_dst
original_dst-sockaddr_in a b c d port h =
    let same : swapped (port % 256 * 256 + port / 256) ≡ port = omega arith in
    ap (λ p. some (endpoint a b c d p)) same
