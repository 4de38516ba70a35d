-- ===== src/Dnsx.antt =====
-- internal/dnsx/dnsx.go: the cache of resolved hosts and what fills it. Times are nanoseconds. What the
-- DNS queries and the shell tools find are arguments, and so are the servers of the carrier.
pub mod Cache
pub mod Evict
pub mod Servers
pub mod Ips
use sshcustom_vpnchain.Base.{
  ℕ, ◌+◌, ◌*◌, ◌^◌, Bool, ◌||◌, Option, none, some, List, [], ◌∷◌, ◌++◌, ltb, if◌then◌else◌,
  is_some, is_empty, any, Bytes, codes, str_eq,
}
use sshcustom_vpnchain.Base.Text.{trim_space, to_lower, has_suffix, join}
use sshcustom_vpnchain.Base.Assoc.{find, put}
use sshcustom_vpnchain.Net.HostPort.{join_host_port, split_host_port}
use sshcustom_vpnchain.Base.Assoc.{remove_if}

pub record CacheEntry : Type 0 where
  pub ips : List Bytes
  pub method : Bytes
  pub expires : ℕ

abbrev pub Cache : Type 0
Cache = List (Bytes × CacheEntry)

pub record DnsConfig : Type 0 where
  pub mode : Bytes
  pub servers : List Bytes

abbrev pub is_member : Bytes → List Bytes → Bool
is_member s xs = any (λ x. str_eq x s) xs

-- `if _, _, err := net.SplitHostPort(s); err != nil { s = net.JoinHostPort(s, "53") }`.
abbrev pub with_port : Bytes → Bytes
with_port s = if is_some (split_host_port s) then s else join_host_port s (codes "53")

-- The loop of `NormalizeServers`, with what it has put out.
unfoldable pub normalized_onto : List Bytes → List Bytes → List Bytes
normalized_onto out [] = out
normalized_onto out (s ∷ rest) =
    let server = with_port (trim_space s) in
    let kept = normalized_onto out rest in
    let added = normalized_onto (out ++ server ∷ []) rest in
    if is_empty (trim_space s) || is_member server out then kept else added

-- `NormalizeServers`.
unfoldable pub normalize_servers : List Bytes → List Bytes
unfolding normalized_onto
normalize_servers servers = normalized_onto [] servers

-- `strings.ToLower(strings.TrimSpace(host))`.
abbrev pub normal_host : Bytes → Bytes
normal_host host = to_lower (trim_space host)

-- `cacheKey`.
unfoldable pub cache_key : DnsConfig → Bytes → Bytes
cache_key cfg host =
    cfg.mode
    ++ (codes "|" ++ (join (normalize_servers cfg.servers) (codes ",") ++ (codes "|" ++ host)))

-- Five minutes.
abbrev pub cache_time : ℕ
cache_time = 5 * 60 * 10 ^ 9

-- `cache`.
abbrev pub store_entry : Cache → Bytes → List Bytes → Bytes → ℕ → Cache
store_entry entries key ips method now =
    put key (record { ips = ips; method = method; expires = now + cache_time }) entries

-- `configuredServers`, given what `AndroidCarrierDNS` returns.
unfoldable pub configured_servers : DnsConfig → List Bytes → List Bytes × Bytes
configured_servers cfg carrier =
    if str_eq cfg.mode (codes "google")
    then (normalize_servers (codes "8.8.8.8" ∷ codes "8.8.4.4" ∷ []), codes "google_dns")
    else if str_eq cfg.mode (codes "cloudflare")
    then (normalize_servers (codes "1.1.1.1" ∷ codes "1.0.0.1" ∷ []), codes "cloudflare_dns")
    else if str_eq cfg.mode (codes "custom")
    then (normalize_servers cfg.servers, codes "custom_dns")
    else (carrier, codes "android_real_dns")

-- What a lookup meets: the time, the servers of the carrier, what `resolveViaDirectDNS` finds with
-- given servers, and what `shellResolve` finds.
pub record Network : Type 0 where
  pub now : ℕ
  pub carrier : List Bytes
  pub direct : Bytes → List Bytes → List Bytes
  pub shell : Bytes → List Bytes

-- `ips, method`, and the cache.
pub record Resolved : Type 0 where
  pub ips : List Bytes
  pub method : Bytes
  pub entries : Cache

unfoldable pub by_shell : Cache → Bytes → ℕ → List Bytes → Resolved
by_shell entries key now [] = record { ips = []; method = codes "dns_failed"; entries = entries }
by_shell entries key now (ip ∷ ips) = record {
  ips = ip ∷ ips;
  method = codes "android_shell_dns";
  entries = store_entry entries key (ip ∷ ips) (codes "android_shell_dns") now;
}

unfoldable pub by_servers : Cache → Bytes → Bytes → Network → Bytes → List Bytes → Resolved
unfolding by_shell
by_servers entries key host n method [] = by_shell entries key n.now (n.shell host)
by_servers entries key host n method (ip ∷ ips) = record {
  ips = ip ∷ ips;
  method = method;
  entries = store_entry entries key (ip ∷ ips) method n.now;
}

-- `if len(servers) > 0 { ... }`.
abbrev pub asked_direct : Network → Bytes → List Bytes → List Bytes
asked_direct n host servers = if is_empty servers then [] else n.direct host servers

-- A lookup that does not use the cache.
unfoldable pub look_up : Cache → DnsConfig → Bytes → Network → Resolved
unfolding by_servers
look_up entries cfg host n =
    let (servers, method) = configured_servers cfg n.carrier in
    by_servers entries (cache_key cfg host) host n method (asked_direct n host servers)

unfoldable pub from_cache : Cache → DnsConfig → Bytes → Network → Option CacheEntry → Resolved
unfolding look_up
from_cache entries cfg host n none = look_up entries cfg host n
from_cache entries cfg host n (some e) =
    let missed = look_up entries cfg host n in
    if ltb n.now e.expires
    then record { ips = e.ips; method = codes "dns_cached_" ++ e.method; entries = entries }
    else missed

-- `ResolveHost`.
unfoldable pub resolve_host : Cache → DnsConfig → Bytes → Network → Resolved
unfolding from_cache
resolve_host entries cfg given n =
    let host = normal_host given in
    from_cache entries cfg host n (find (cache_key cfg host) entries)

-- `EvictHost`.
unfoldable pub evict_host : Cache → Bytes → Cache
evict_host entries given =
    let host = normal_host given in
    let left = remove_if (λ (k : Bytes). has_suffix k (codes "|" ++ host)) entries in
    if is_empty host then entries else left
