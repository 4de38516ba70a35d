-- ===== src/Dnsx/Cache.antt =====
-- What was resolved is answered from the cache.
use sshcustom_vpnchain.Base.{
  ℕ, ◌+◌, ◌<◌, ◌≡◌, refl, sym, ap, ◌∙◌, subst, false, none, some, List, [], ◌∷◌, ◌++◌, arith,
  lt→ltb, is_empty, Bytes, codes, str_eq_refl,
}
use sshcustom_vpnchain.Base.Assoc.{find}
use sshcustom_vpnchain.Dnsx.{
  CacheEntry, Cache, DnsConfig, normal_host, cache_key, cache_time, store_entry, configured_servers,
  Network, Resolved, by_shell, by_servers, asked_direct, look_up, from_cache, resolve_host,
}
use sshcustom_vpnchain.Base.Assoc.{find-put}
use sshcustom_vpnchain.Base.{Bool, ltb, Option}

abbrev pub answer : Resolved → Resolved
answer r = record { ips = r.ips; method = codes "dns_cached_" ++ r.method; entries = r.entries }

-- Where a result with addresses stands in the cache.
abbrev Stands : Bytes → ℕ → Resolved → Type 0
Stands key now r =
    find key r.entries
    ≡ some (record { ips = r.ips; method = r.method; expires = now + cache_time })

put_found :
    (key : Bytes) (now : ℕ) (ips : List Bytes) (method : Bytes) (entries : Cache)
    → find key (store_entry entries key ips method now)
      ≡ some (record { ips = ips; method = method; expires = now + cache_time })
put_found key now ips method entries =
    let e : CacheEntry = record { ips = ips; method = method; expires = now + cache_time } in
    find-put {V = CacheEntry} key key e entries ∙ rw (str_eq_refl key) refl

Stands-shell :
    (entries : Cache) (key : Bytes) (now : ℕ) (ips : List Bytes)
    → is_empty (by_shell entries key now ips).ips ≡ false
    → Stands key now (by_shell entries key now ips)
unfolding by_shell
Stands-shell entries key now [] h = absurd (ground arith)
Stands-shell entries key now (ip ∷ ips) h =
    put_found key now (ip ∷ ips) (codes "android_shell_dns") entries

Stands-servers :
    (entries : Cache) (key host : Bytes) (n : Network) (method : Bytes) (ips : List Bytes)
    → is_empty (by_servers entries key host n method ips).ips ≡ false
    → Stands key n.now (by_servers entries key host n method ips)
unfolding by_servers
Stands-servers entries key host n method [] h = Stands-shell entries key n.now (n.shell host) h
Stands-servers entries key host n method (ip ∷ ips) h =
    put_found key n.now (ip ∷ ips) method entries

Stands-look_up :
    (entries : Cache) (cfg : DnsConfig) (host : Bytes) (n : Network)
    → is_empty (look_up entries cfg host n).ips ≡ false
    → Stands (cache_key cfg host) n.now (look_up entries cfg host n)
unfolding look_up
Stands-look_up entries cfg host n h =
    let (servers, method) = configured_servers cfg n.carrier in
    Stands-servers entries (cache_key cfg host) host n method (asked_direct n host servers) h

-- The entry of a host is still valid at a time.
abbrev pub is_valid : ℕ → Option CacheEntry → Bool
is_valid now none = false
is_valid now (some e) = ltb now e.expires

from_cache-missed :
    (entries : Cache) (cfg : DnsConfig) (host : Bytes) (n : Network) (o : Option CacheEntry)
    → is_valid n.now o ≡ false
    → from_cache entries cfg host n o ≡ look_up entries cfg host n
unfolding from_cache
from_cache-missed entries cfg host n none h = refl
from_cache-missed entries cfg host n (some e) h = rw h refl

resolve-missing :
    (entries : Cache) (cfg : DnsConfig) (given : Bytes) (n : Network)
    → is_valid n.now (find (cache_key cfg (normal_host given)) entries) ≡ false
    → resolve_host entries cfg given n ≡ look_up entries cfg (normal_host given) n
unfolding resolve_host
resolve-missing entries cfg given n missing =
    from_cache-missed entries cfg (normal_host given) n
      (find (cache_key cfg (normal_host given)) entries) missing

resolve-hit :
    (entries : Cache) (cfg : DnsConfig) (given : Bytes) (n : Network) (e : CacheEntry)
    → find (cache_key cfg (normal_host given)) entries ≡ some e
    → n.now < e.expires
    → resolve_host entries cfg given n
      ≡ record { ips = e.ips; method = codes "dns_cached_" ++ e.method; entries = entries }
unfolding resolve_host from_cache
resolve-hit entries cfg given n e there fresh =
    ap (from_cache entries cfg (normal_host given) n) there ∙ rw (lt→ltb n.now e.expires fresh) refl

-- A host that is looked up, since the cache has no entry for it or one that has expired, is answered
-- from the cache for the five minutes behind that: with the same addresses, whatever the network then
-- says, however the host is spelled in letter case and outer space, and without a change of the cache.
pub resolve_host-resolve_host :
    (entries : Cache) (cfg : DnsConfig) (given again : Bytes) (n later : Network)
    → is_valid n.now (find (cache_key cfg (normal_host given)) entries) ≡ false
    → is_empty (resolve_host entries cfg given n).ips ≡ false
    → normal_host again ≡ normal_host given
    → later.now < n.now + cache_time
    → let r = resolve_host entries cfg given n in
      resolve_host r.entries cfg again later
      ≡ record { ips = r.ips; method = codes "dns_cached_" ++ r.method; entries = r.entries }
resolve_host-resolve_host entries cfg given again n later missing found same soon =
    let host = normal_host given in
    let r = resolve_host entries cfg given n in
    let fresh = resolve-missing entries cfg given n missing in
    let kept : Stands (cache_key cfg host) n.now r =
      subst (Stands (cache_key cfg host) n.now) (sym fresh) (
        Stands-look_up entries cfg host n
          (ap (λ (x : Resolved). is_empty x.ips) (sym fresh) ∙ found)) in
    let there : find (cache_key cfg (normal_host again)) r.entries
        ≡ some (record { ips = r.ips; method = r.method; expires = n.now + cache_time }) =
      ap (λ h. find (cache_key cfg h) r.entries) same ∙ kept in
    resolve-hit r.entries cfg again later
      (record { ips = r.ips; method = r.method; expires = n.now + cache_time }) there soon
