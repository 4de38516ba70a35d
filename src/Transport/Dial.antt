-- ===== src/Transport/Dial.antt =====
-- cmd/sshcustomd/main.go: `dialTCPResolved`, which tries one address after another, and
-- `dialFallbackIPs`. What a dial meets depends on how many came before it, and on its address. The
-- resolver is that of internal/dnsx/dnsx.go, with its cache.
pub mod Order
use sshcustom_vpnchain.Base.{
  ℕ, suc, Bool, Option, none, some, List, [], ◌∷◌, ◌++◌, map, if◌then◌else◌, length, is_empty, ℤ,
  Bytes, codes, str_eq,
}
use sshcustom_vpnchain.Base.Text.{equal_fold}
use sshcustom_vpnchain.Base.Decimal.{itoa_int}
use sshcustom_vpnchain.Net.HostPort.{join_host_port}
use sshcustom_vpnchain.Net.IpClass.{ip_string}
use sshcustom_vpnchain.Net.ParseIp.{parse_ip}
use sshcustom_vpnchain.Dnsx.{Cache, DnsConfig, Network, Resolved, resolve_host}
use sshcustom_vpnchain.Dnsx.Ips.{rotate_ips, sanitize_ipv4_list}
use sshcustom_vpnchain.Config.Data.{Config}
use sshcustom_vpnchain.Profile.Data.{Profile, HttpProxyCfg}

-- What the call meets: whether a dial succeeds, the two lookups, and the times of its rotations.
pub record World : Type 0 where
  pub up : ℕ → Bytes → Bool
  pub first_lookup : Network
  pub second_lookup : Network
  pub first_time : ℕ
  pub second_time : ℕ

-- A round of dials: the address that was reached, and all that were tried.
pub record Tried : Type 0 where
  pub reached : Option Bytes
  pub tried : List Bytes

trying : Bytes → Tried → Tried
trying a t = record t { tried = a ∷ t.tried }

-- One address after another, after so many dials, up to the first that is reached.
unfoldable pub dial_each : (ℕ → Bytes → Bool) → ℕ → List Bytes → Tried
unfolding trying
dial_each up n [] = record { reached = none; tried = [] }
dial_each up n (a ∷ rest) =
    let more = dial_each up (suc n) rest in
    if up n a then record { reached = some a; tried = a ∷ [] } else trying a more

-- The results of `dialTCPResolved`, with the addresses that it tried and the resolver's cache.
pub record Dialled : Type 0 where
  pub conn : Option Bytes
  pub addr : Bytes
  pub method : Bytes
  pub ips : List Bytes
  pub tried : List Bytes
  pub entries : Cache

abbrev pub with_ports : Bytes → List Bytes → List Bytes
with_ports port = map (λ ip. join_host_port ip port)

abbrev pub device_dns : DnsConfig
device_dns = record { mode = codes "device"; servers = [] }

first_of : List Bytes → Bytes
first_of [] = []
first_of (ip ∷ ips) = ip

abbrev pub then_tried : List Bytes → Dialled → Dialled
then_tried before d = record d { tried = before ++ d.tried }

-- A round over the addresses of a lookup that found some, or what comes after it.
reached_or : List Bytes → Bytes → Cache → List Bytes → Dialled → Option Bytes → Dialled
reached_or ips method entries ts other (some a) = record {
  conn = some a;
  addr = a;
  method = method;
  ips = ips;
  tried = ts;
  entries = entries;
}
reached_or ips method entries ts other none = then_tried ts other

abbrev round_over : List Bytes → Bytes → Cache → Tried → Dialled → Dialled
round_over ips method entries t other = reached_or ips method entries t.tried other t.reached

abbrev pub failed_with : Bytes → Bytes → List Bytes → Cache → Dialled
failed_with addr method ips entries = record {
  conn = none;
  addr = addr;
  method = method;
  ips = ips;
  tried = [];
  entries = entries;
}

-- Behind the second lookup, after `n` dials.
last_resort : World → Bytes → Bytes → List Bytes → ℕ → Resolved → Dialled
unfolding dial_each reached_or first_of
last_resort w port addr fallback n r =
    let spare = dial_each w.up n (with_ports port (rotate_ips w.second_time fallback)) in
    let ips = rotate_ips w.second_time r.ips in
    let found = dial_each w.up n (with_ports port ips) in
    if is_empty r.ips
    then round_over fallback (codes "profile_fallback_ip_last_resort") r.entries spare
        (failed_with addr (codes "device_system_dns_failed") [] r.entries)
    else round_over ips r.method r.entries found
        (failed_with (join_host_port (first_of ips) port) r.method ips r.entries)

-- From the dial through the system's resolver on.
by_system : World → Bytes → Bytes → List Bytes → ℕ → Cache → Dialled
unfolding last_resort
by_system w host port fallback n entries =
    let addr = join_host_port host port in
    let rest =
      last_resort w port addr fallback (suc n)
        (resolve_host entries device_dns host w.second_lookup) in
    round_over [] (codes "device_system_dns") entries (dial_each w.up n (addr ∷ [])) rest

-- Behind the first lookup, which is made unless the mode is `device`.
by_first_lookup : World → Bytes → Bytes → List Bytes → Resolved → Dialled
unfolding by_system
by_first_lookup w host port fallback r =
    let addresses = with_ports port (rotate_ips w.first_time r.ips) in
    let found = dial_each w.up 0 addresses in
    let after = by_system w host port fallback (length addresses) r.entries in
    round_over r.ips r.method r.entries found after

by_name : World → Config → Bytes → Bytes → List Bytes → Cache → Dialled
unfolding by_first_lookup
by_name w cfg host port fallback entries =
    let looked_up =
      by_first_lookup w host port fallback (resolve_host entries device_dns host w.first_lookup) in
    let directly = by_system w host port fallback 0 entries in
    if str_eq cfg.dns.mode (codes "device") then directly else looked_up

literal : World → Bytes → Bytes → Cache → Bytes → Dialled
literal w host port entries ip =
    let addr = join_host_port host port in
    record {
      conn = if w.up 0 addr then some addr else none;
      addr = addr;
      method = codes "literal_ip";
      ips = ip_string ip ∷ [];
      tried = addr ∷ [];
      entries = entries;
    }

literal_or_name : World → Config → Bytes → Bytes → List Bytes → Cache → Option Bytes → Dialled
unfolding by_name literal
literal_or_name w cfg host port fallback entries (some ip) = literal w host port entries ip
literal_or_name w cfg host port fallback entries none = by_name w cfg host port fallback entries

-- `dialTCPResolved`.
unfoldable pub dial_tcp_resolved : World → Config → Bytes → ℤ → List Bytes → Cache → Dialled
unfolding literal_or_name
dial_tcp_resolved w cfg host port fallback entries =
    literal_or_name w cfg host (itoa_int port) fallback entries (parse_ip host)

proxy_fallback : Profile → Bytes → Option HttpProxyCfg → List Bytes
proxy_fallback p host none = []
proxy_fallback p host (some proxy) =
    if equal_fold host proxy.host then proxy.fallback_ips ++ p.ssh.fallback_ips else []

-- `dialFallbackIPs`.
unfoldable pub dial_fallback_ips : Profile → Bytes → List Bytes
unfolding proxy_fallback sanitize_ipv4_list
dial_fallback_ips p host =
    let own = if equal_fold host p.ssh.host then p.ssh.fallback_ips else [] in
    sanitize_ipv4_list (own ++ proxy_fallback p host p.transport.http_proxy)
