-- ===== src/Tests/Dns.antt =====
-- Examples for the resolver's cache.
use sshcustom_vpnchain.Base.{◌*◌, ◌^◌, ◌≡◌, refl, [], ◌∷◌, ◌++◌, arith, codes}
use sshcustom_vpnchain.Base.Assoc.{find}
use sshcustom_vpnchain.Base.Text.{trim, trim_left}
use sshcustom_vpnchain.Dnsx.{
  DnsConfig, Network, resolve_host, look_up, by_servers, from_cache, configured_servers,
}
use sshcustom_vpnchain.Dnsx.Cache.{resolve_host-resolve_host}
use sshcustom_vpnchain.Base.{◌+◌}
use sshcustom_vpnchain.Base.Assoc.{put}
use sshcustom_vpnchain.Dnsx.{Cache, store_entry, cache_key, cache_time}
use sshcustom_vpnchain.Dnsx.{normalize_servers}

abbrev device : DnsConfig
device = record { mode = codes "device"; servers = [] }

-- The carrier's server knows the host, and a minute later nothing answers.
abbrev online : Network
online = record {
  now = 1000;
  carrier = codes "10.1.1.1:53" ∷ [];
  direct = λ host servers. codes "93.184.216.34" ∷ [];
  shell = λ host. [];
}

abbrev offline : Network
offline = record {
  now = 60 * 10 ^ 9;
  carrier = [];
  direct = λ host servers. [];
  shell = λ host. [];
}

-- The entry of an earlier lookup has expired.
abbrev entries : Cache
entries = store_entry [] (cache_key device (codes "ssh.home")) (codes "1.2.3.4" ∷ []) (codes "x") 0

abbrev online_again : Network
online_again = record online { now = cache_time }

resolve_host-resolve_host_example :
    let r = resolve_host entries device (codes "ssh.home") online_again in
    resolve_host r.entries device (codes " SSH.Home") (record offline { now = cache_time + 60 })
    ≡ record { ips = r.ips; method = codes "dns_cached_" ++ r.method; entries = r.entries }
unfolding find put resolve_host from_cache look_up by_servers configured_servers trim trim_left
    cache_key normalize_servers
resolve_host-resolve_host_example =
    resolve_host-resolve_host entries device (codes "ssh.home") (codes " SSH.Home") online_again
      (record offline { now = cache_time + 60 }) refl refl refl (omega arith)
