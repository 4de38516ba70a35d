-- ===== src/Dnsx/Ips.antt =====
-- internal/dnsx/dnsx.go: the lists of addresses: `ExtractIPv4s`, `SanitizeIPv4List`, `RotateIPs`, and
-- how `resolveViaDirectDNS`, `shellResolve` and `AndroidCarrierDNS` make theirs. The answers of DNS
-- servers, the output of commands and the time are arguments.
pub mod Sanitized
pub mod Rotated
pub mod Lookups
use sshcustom_vpnchain.Base.{
  ℕ, ◌+◌, ◌*◌, ◌%◌, ◌^◌, Bool, not, ◌&&◌, ◌||◌, Option, none, some, List, [], ◌∷◌, ◌++◌, map, ltb,
  leb, ◌==◌, if◌then◌else◌, is_some, length, take, drop, is_empty, Bytes, codes, str_eq,
}
use mathlib.Core.Option
use sshcustom_vpnchain.Base.Text.{trim_space}
use sshcustom_vpnchain.Base.Decimal.{is_digit}
use sshcustom_vpnchain.Net.Ip.{to4}
use sshcustom_vpnchain.Net.IpClass.{ip_string}
use sshcustom_vpnchain.Net.ParseIp.{parse_ip}
use sshcustom_vpnchain.Net.HostPort.{join_host_port}
use sshcustom_vpnchain.Dnsx.{is_member}

-- `appendUnique`.
abbrev pub append_unique : Bytes → List Bytes → List Bytes
append_unique s xs = if is_member s xs then xs else xs ++ s ∷ []

unfoldable pub only_ipv4 : Option Bytes → Option Bytes
only_ipv4 none = none
only_ipv4 (some ip) = if is_some (to4 ip) then some (ip_string ip) else none

-- `ip.String()` of `net.ParseIP`, where that is an IPv4 address.
unfoldable pub canonical_ipv4 : Bytes → Option Bytes
canonical_ipv4 s = only_ipv4 (parse_ip s)

unique_onto : List Bytes → Option Bytes → List Bytes
unique_onto out none = out
unique_onto out (some s) = append_unique s out

-- The loop that the three functions share, with what it has put out.
unfoldable pub collected : List Bytes → List Bytes → List Bytes
unfolding unique_onto
collected out [] = out
collected out (s ∷ rest) = collected (unique_onto out (canonical_ipv4 s)) rest

-- `strings.FieldsFunc`: the runs of the bytes that pass the test, after the one that is being read.
unfoldable pub fields_of : (ℕ → Bool) → Bytes → Bytes → List Bytes
fields_of p field [] = if is_empty field then [] else field ∷ []
fields_of p field (c ∷ s) =
    let same = fields_of p (field ++ c ∷ []) s in
    let next = fields_of p [] s in
    if p c then same else if is_empty field then next else field ∷ next

-- `ExtractIPv4s`.
unfoldable pub extract_ipv4s : Bytes → List Bytes
unfolding collected fields_of
extract_ipv4s s = collected [] (fields_of (λ c. c == b'.' || is_digit c) [] s)

-- `SanitizeIPv4List`.
unfoldable pub sanitize_ipv4_list : List Bytes → List Bytes
unfolding collected
sanitize_ipv4_list xs = collected [] (map trim_space xs)

-- `RotateIPs`, at a time in nanoseconds.
unfoldable pub rotate_ips : ℕ → List Bytes → List Bytes
rotate_ips now xs =
    let off = now % length xs in if leb (length xs) 1 then xs else drop off xs ++ take off xs

-- What one goroutine of `resolveViaDirectDNS` sends: nothing where its lookup fails.
abbrev pub answer_of : Option (List Bytes) → List Bytes
unfolding collected
answer_of none = []
answer_of (some addrs) = collected [] addrs

-- The loop that receives the answers, in the order of their coming: the first that is not empty.
unfoldable pub first_answer : List (Option (List Bytes)) → List Bytes
first_answer [] = []
first_answer (r ∷ rest) =
    let later = first_answer rest in if is_empty (answer_of r) then later else answer_of r

-- How a command ends: its output, and whether it failed.
pub record Output : Type 0 where
  pub text : Bytes
  pub failed : Bool

-- `shellResolve`, on what its three commands would give.
unfoldable pub shell_resolve : List Output → List Bytes
unfolding extract_ipv4s
shell_resolve [] = []
shell_resolve (o ∷ rest) =
    let later = shell_resolve rest in
    if o.failed && is_empty o.text
    then later
    else if is_empty (extract_ipv4s o.text)
    then later
    else extract_ipv4s o.text

-- `androidPropCache`.
pub record PropCache : Type 0 where
  pub servers : List Bytes
  pub expires : ℕ

usable_property : Output → Bool
usable_property o =
    let ip = trim_space o.text in
    not o.failed
    && (not (is_empty ip) && (not (str_eq ip (codes "0.0.0.0")) && is_some (parse_ip ip)))

-- The scan of the properties, which stops at the first that names a server.
scanned : List Output → List Bytes
unfolding usable_property
scanned [] = []
scanned (o ∷ rest) =
    let later = scanned rest in
    if usable_property o then join_host_port (trim_space o.text) (codes "53") ∷ [] else later

-- `AndroidCarrierDNS` at a time in nanoseconds: the servers, and the cache with its two minutes.
unfoldable pub android_carrier_dns : ℕ → PropCache → List Output → List Bytes × PropCache
unfolding scanned
android_carrier_dns now cache props =
    let servers = scanned props in
    let fresh =
      if is_empty servers
      then cache
      else record { servers = servers; expires = now + 2 * 60 * 10 ^ 9 } in
    if ltb now cache.expires && not (is_empty cache.servers)
    then (cache.servers, cache)
    else (servers, fresh)
