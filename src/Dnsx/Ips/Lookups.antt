-- ===== src/Dnsx/Ips/Lookups.antt =====
-- The cache of the carrier's servers.
use sshcustom_vpnchain.Base.{
  ℕ, ◌+◌, ◌*◌, ◌^◌, ◌<◌, ◌≡◌, refl, sym, ap, ◌∙◌, true, false, List, arith, ltb, leb, is_empty,
  Bytes,
}
use sshcustom_vpnchain.Dnsx.Ips.{Output, PropCache, android_carrier_dns, scanned}

abbrev stamped : ℕ → List Bytes → PropCache
stamped now servers = record { servers = servers; expires = now + 2 * 60 * 10 ^ 9 }

scanned-stamped :
    (now : ℕ) (cache : PropCache) (props : List Output)
    → leb cache.expires now ≡ true
    → is_empty (scanned props) ≡ false
    → android_carrier_dns now cache props ≡ (scanned props, stamped now (scanned props))
unfolding android_carrier_dns
scanned-stamped now cache props stale filled =
    let old : ltb now cache.expires ≡ false = ground arith in rw (old, filled) refl

scanned-filled :
    (now : ℕ) (cache : PropCache) (props : List Output)
    → leb cache.expires now ≡ true
    → is_empty (android_carrier_dns now cache props).0 ≡ false
    → is_empty (scanned props) ≡ false
unfolding android_carrier_dns
scanned-filled now cache props stale =
    let old : ltb now cache.expires ≡ false = ground arith in rw old (λ h. h)

stamped-again :
    (now later : ℕ) (servers : List Bytes) (others : List Output)
    → later < now + 2 * 60 * 10 ^ 9
    → is_empty servers ≡ false
    → android_carrier_dns later (stamped now servers) others ≡ (servers, stamped now servers)
unfolding android_carrier_dns
stamped-again now later servers others soon filled =
    let fresh : ltb later (now + 2 * 60 * 10 ^ 9) ≡ true = ground arith in rw (fresh, filled) refl

-- `AndroidCarrierDNS` asks Android at most once in two minutes: where a call finds its cache run out
-- and a property that names a server, every call before two minutes are over has the same result and
-- leaves the cache as it is, whatever the properties are by then.
pub android_carrier_dns-android_carrier_dns :
    (now later : ℕ) (cache : PropCache) (props others : List Output)
    → later < now + 2 * 60 * 10 ^ 9
    → leb cache.expires now ≡ true
    → is_empty (android_carrier_dns now cache props).0 ≡ false
    → android_carrier_dns later (android_carrier_dns now cache props).1 others
      ≡ android_carrier_dns now cache props
android_carrier_dns-android_carrier_dns now later cache props others soon stale filled =
    let found = scanned-filled now cache props stale filled in
    let first = scanned-stamped now cache props stale found in
    ap (λ (r : List Bytes × PropCache). android_carrier_dns later r.1 others) first
    ∙ stamped-again now later (scanned props) others soon found
    ∙ sym first
