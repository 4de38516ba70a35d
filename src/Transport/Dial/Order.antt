-- ===== src/Transport/Dial/Order.antt =====
-- `dialTCPResolved` as one walk over a list of addresses.
use sshcustom_vpnchain.Base.{
  ℕ, suc, ◌+◌, ◌≡◌, refl, subst, inl, inr, Bool, Option, none, some, List, [], ◌∷◌, ◌++◌,
  append-nil, arith, if◌then◌else◌, Bool-cases, is_some, length, is_empty, ℤ, Bytes, codes, str_eq,
}
use sshcustom_vpnchain.Base.Decimal.{itoa_int}
use sshcustom_vpnchain.Net.HostPort.{join_host_port}
use sshcustom_vpnchain.Net.ParseIp.{parse_ip}
use sshcustom_vpnchain.Dnsx.{Cache, Resolved, resolve_host}
use sshcustom_vpnchain.Dnsx.Ips.{rotate_ips}
use sshcustom_vpnchain.Config.Data.{Config}
use sshcustom_vpnchain.Transport.Dial.{
  World, Tried, trying, dial_each, Dialled, with_ports, device_dns, reached_or, round_over,
  failed_with, last_resort, by_system, by_first_lookup, by_name, literal, literal_or_name,
  dial_tcp_resolved,
}
use sshcustom_vpnchain.Base.{str_eq}
use sshcustom_vpnchain.Base.{false}

-- The dials that were made, and which of them succeeded.
abbrev pub Walks : Dialled → Tried → Type 0
Walks d t = (d.conn ≡ t.reached) × (d.tried ≡ t.tried)

reached_or-trying :
    (ips : List Bytes) (method : Bytes) (entries : Cache) (a : Bytes) (t u : Tried)
    (other : Dialled) (r : Option Bytes)
    → t.reached ≡ r
    → Walks (reached_or ips method entries t.tried other t.reached) u
    → Walks (reached_or ips method entries (a ∷ t.tried) other t.reached) (trying a u)
unfolding reached_or trying
reached_or-trying ips method entries a t u other none e h = rw e (ground (arith, h, e))
reached_or-trying ips method entries a t u other (some b) e h = rw e (ground (arith, h, e))

round-Walks :
    (up : ℕ → Bytes → Bool) (ips : List Bytes) (method : Bytes) (entries : Cache) (other : Dialled)
    (n m : ℕ) (xs ys : List Bytes)
    → m ≡ n + length xs
    → Walks other (dial_each up m ys)
    → Walks (round_over ips method entries (dial_each up n xs) other) (dial_each up n (xs ++ ys))
unfolding dial_each reached_or
round-Walks up ips method entries other n m [] ys e h =
    let same : m ≡ n = omega arith in subst (λ (k : ℕ). Walks other (dial_each up k ys)) same h
round-Walks up ips method entries other n m (a ∷ xs) ys e h = elim (Bool-cases (up n a)) [
  | inl reached ↦ rw reached (refl, refl)
  | inr failed ↦
      let more = round-Walks up ips method entries other (suc n) m xs ys (omega arith) h in
      rw failed (
        reached_or-trying ips method entries a (dial_each up (suc n) xs)
          (dial_each up (suc n) (xs ++ ys)) other (dial_each up (suc n) xs).reached refl more)
]

-- After the second lookup: what it found, or the addresses of the profile where it found nothing.
abbrev pub last_candidates : World → Bytes → List Bytes → Resolved → List Bytes
last_candidates w port fallback r =
    with_ports port (rotate_ips w.second_time (if is_empty r.ips then fallback else r.ips))

abbrev pub system_candidates : World → Bytes → Bytes → List Bytes → Cache → List Bytes
system_candidates w host port fallback entries =
    join_host_port host port
    ∷ last_candidates w port fallback (resolve_host entries device_dns host w.second_lookup)

abbrev pub lookup_candidates : World → Bytes → Bytes → List Bytes → Resolved → List Bytes
lookup_candidates w host port fallback r =
    with_ports port (rotate_ips w.first_time r.ips)
    ++ system_candidates w host port fallback r.entries

-- All the addresses that may be tried, in order: a literal address alone; for a name what a first
-- lookup finds, unless the mode is `device`, then the name itself, which the system resolves, and
-- then what a second lookup finds, or the addresses of the profile where that finds none.
abbrev pub candidates : World → Config → Bytes → Bytes → List Bytes → Cache → List Bytes
candidates w cfg host port fallback entries =
    if is_some (parse_ip host)
    then join_host_port host port ∷ []
    else if str_eq cfg.dns.mode (codes "device")
    then system_candidates w host port fallback entries
    else lookup_candidates w host port fallback
        (resolve_host entries device_dns host w.first_lookup)

nothing-Walks :
    (up : ℕ → Bytes → Bool) (n m : ℕ) (xs : List Bytes) (addr method : Bytes) (ips : List Bytes)
    (entries : Cache) (ips2 : List Bytes) (method2 : Bytes)
    → Walks
        (round_over ips2 method2 entries (dial_each up n xs) (failed_with addr method ips entries))
        (dial_each up n xs)
unfolding dial_each
nothing-Walks up n m xs addr method ips entries ips2 method2 =
    subst
      (λ (ys : List Bytes).
        Walks
          (round_over ips2 method2 entries (dial_each up n xs)
            (failed_with addr method ips entries))
          (dial_each up n ys))
      (append-nil xs)
      (round-Walks up ips2 method2 entries (failed_with addr method ips entries) n (n + length xs)
        xs [] refl (refl, refl))

last-Walks :
    (w : World) (port addr : Bytes) (fallback : List Bytes) (n : ℕ) (r : Resolved)
    → Walks
        (last_resort w port addr fallback n r)
        (dial_each w.up n (last_candidates w port fallback r))
unfolding last_resort
last-Walks w port addr fallback n r = elim (Bool-cases (is_empty r.ips)) [
  | inl none_found ↦ rw none_found (nothing-Walks w.up n n _ _ _ _ _ _ _)
  | inr found ↦ rw found (nothing-Walks w.up n n _ _ _ _ _ _ _)
]

system-Walks :
    (w : World) (host port : Bytes) (fallback : List Bytes) (n : ℕ) (entries : Cache)
    → Walks
        (by_system w host port fallback n entries)
        (dial_each w.up n (system_candidates w host port fallback entries))
unfolding by_system
system-Walks w host port fallback n entries =
    let addr = join_host_port host port in
    let r = resolve_host entries device_dns host w.second_lookup in
    round-Walks w.up [] (codes "device_system_dns") entries
      (last_resort w port addr fallback (suc n) r) n (suc n) (addr ∷ [])
      (last_candidates w port fallback r) (omega arith) (last-Walks w port addr fallback (suc n) r)

name-Walks :
    (w : World) (cfg : Config) (host port : Bytes) (fallback : List Bytes) (entries : Cache)
    → Walks (by_name w cfg host port fallback entries) (
        dial_each w.up 0 (
          if str_eq cfg.dns.mode (codes "device")
          then system_candidates w host port fallback entries
          else lookup_candidates w host port fallback
              (resolve_host entries device_dns host w.first_lookup)))
unfolding by_name by_first_lookup
name-Walks w cfg host port fallback entries =
    elim (Bool-cases (str_eq cfg.dns.mode (codes "device"))) [
      | inl device ↦ rw device (system-Walks w host port fallback 0 entries)
      | inr other ↦
          let r = resolve_host entries device_dns host w.first_lookup in
          let addresses = with_ports port (rotate_ips w.first_time r.ips) in
          rw other (
            round-Walks w.up r.ips r.method r.entries
              (by_system w host port fallback (length addresses) r.entries) 0 (length addresses)
              addresses (system_candidates w host port fallback r.entries) (omega arith)
              (system-Walks w host port fallback (length addresses) r.entries))
    ]

literal_or_name-Walks :
    (w : World) (cfg : Config) (host port : Bytes) (fallback : List Bytes) (entries : Cache)
    (found : Option Bytes)
    → Walks (literal_or_name w cfg host port fallback entries found) (
        dial_each w.up 0 (
          if is_some found
          then join_host_port host port ∷ []
          else if str_eq cfg.dns.mode (codes "device")
          then system_candidates w host port fallback entries
          else lookup_candidates w host port fallback
              (resolve_host entries device_dns host w.first_lookup)))
unfolding literal_or_name literal dial_each
literal_or_name-Walks w cfg host port fallback entries none =
    name-Walks w cfg host port fallback entries
literal_or_name-Walks w cfg host port fallback entries (some ip) =
    elim (Bool-cases (w.up 0 (join_host_port host port))) [
      | inl reached ↦ rw reached (refl, refl)
      | inr failed ↦ rw failed (refl, refl)
    ]

-- `dialTCPResolved` is a walk over its list of candidates: it dials them one after another, connects
-- to the first that it reaches, which is the connection it returns, and dials nothing behind that
-- one; it returns an error only when it has dialled them all. This holds for every host, DNS mode and
-- list of fallback addresses, and for dials that end differently from one time to the next.
pub dial_tcp_resolved-dial_each :
    (w : World) (cfg : Config) (host : Bytes) (port : ℤ) (fallback : List Bytes) (entries : Cache)
    → ((dial_tcp_resolved w cfg host port fallback entries).conn
        ≡ (dial_each w.up 0 (candidates w cfg host (itoa_int port) fallback entries)).reached)
      × ((dial_tcp_resolved w cfg host port fallback entries).tried
          ≡ (dial_each w.up 0 (candidates w cfg host (itoa_int port) fallback entries)).tried)
unfolding dial_tcp_resolved
dial_tcp_resolved-dial_each w cfg host port fallback entries =
    literal_or_name-Walks w cfg host (itoa_int port) fallback entries (parse_ip host)

by_name-other_mode :
    (w : World) (cfg other : Config) (host port : Bytes) (fallback : List Bytes) (entries : Cache)
    → str_eq cfg.dns.mode (codes "device") ≡ false
    → str_eq other.dns.mode (codes "device") ≡ false
    → by_name w cfg host port fallback entries ≡ by_name w other host port fallback entries
unfolding by_name
by_name-other_mode w cfg other host port fallback entries h k = rw (h, k) refl

-- The choice of DNS servers has no effect on how the daemon finds its server: two configurations
-- whose DNS modes are not `device` (`google`, `cloudflare`, `custom`, or any text) give the same dials,
-- the same results and the same cache, whatever servers they name.
pub dial_tcp_resolved-other_mode :
    (w : World) (cfg other : Config) (host : Bytes) (port : ℤ) (fallback : List Bytes)
    (entries : Cache)
    → str_eq cfg.dns.mode (codes "device") ≡ false
    → str_eq other.dns.mode (codes "device") ≡ false
    → dial_tcp_resolved w cfg host port fallback entries
      ≡ dial_tcp_resolved w other host port fallback entries
unfolding dial_tcp_resolved literal_or_name
dial_tcp_resolved-other_mode w cfg other host port fallback entries h k = either (parse_ip host)
  where
    either :
        (found : Option Bytes)
        → literal_or_name w cfg host (itoa_int port) fallback entries found
          ≡ literal_or_name w other host (itoa_int port) fallback entries found
    either (some ip) = refl
    either none = by_name-other_mode w cfg other host (itoa_int port) fallback entries h k
