-- ===== src/Net/Ip.antt =====
-- Addresses as text: `net.IP.String`.
use sshcustom_vpnchain.Base.{
  ℕ, zero, suc, ◌+◌, ◌-◌, ◌*◌, ◌/◌, ◌%◌, ◌≡◌, refl, Bool, ◌&&◌, ◌||◌, Option, none, some, List, [],
  ◌∷◌, ◌++◌, arith, ltb, leb, ◌==◌, if◌then◌else◌, length, take, drop, all, Bytes, codes,
}
use sshcustom_vpnchain.Base.Text.{join}
use sshcustom_vpnchain.Base.Decimal.{itoa}
use sshcustom_vpnchain.Base.{length-drop}
use sshcustom_vpnchain.Net.Conn.{byte_at}

-- Four bytes in dotted form.
unfoldable pub ipv4_string : ℕ → ℕ → ℕ → ℕ → Bytes
ipv4_string a b c d = join (itoa a ∷ itoa b ∷ itoa c ∷ itoa d ∷ []) (codes ".")

hex_digit : ℕ → ℕ
hex_digit d = if ltb d 10 then b'0' + d else b'a' + (d - 10)

-- A 16-bit group in hexadecimal, with no leading zeros.
hex_group : ℕ → Bytes
unfolding hex_digit
hex_group g =
    let d3 = hex_digit (g / 4096) in
    let d2 = hex_digit (g / 256 % 16) in
    let d1 = hex_digit (g / 16 % 16) in
    let d0 = hex_digit (g % 16) in
    if ltb g 16
    then d0 ∷ []
    else if ltb g 256
    then d1 ∷ d0 ∷ []
    else if ltb g 4096
    then d2 ∷ d1 ∷ d0 ∷ []
    else d3 ∷ d2 ∷ d1 ∷ d0 ∷ []

-- The bytes of an address as groups of 16 bits.
groups : Bytes → List ℕ
groups [] = []
groups (a ∷ []) = []
groups (a ∷ b ∷ s) = (a * 256 + b) ∷ groups s

zeros : List ℕ → ℕ
zeros [] = 0
zeros (g ∷ gs) = if g == 0 then suc (zeros gs) else 0

-- The first of the longest runs of two or more zero groups: where it starts, and its length.
longest_run : ℕ → List ℕ → ℕ × ℕ → ℕ × ℕ
unfolding zeros
longest_run i [] (start, len) = (start, len)
longest_run i (g ∷ gs) (start, len) =
    let l = zeros (g ∷ gs) in
    longest_run (suc i) gs (if leb 2 l && ltb len l then (i, l) else (start, len))

-- The groups from number `i` on; `skip` more of them lie in the run that `::` stands for.
render_groups : ℕ × ℕ → ℕ → ℕ → List ℕ → Bytes
unfolding hex_group
render_groups run i skip [] = []
render_groups run i (suc skip) (g ∷ gs) = render_groups run (suc i) skip gs
render_groups (start, len) i zero (g ∷ gs) =
    let hidden = codes "::" ++ render_groups (start, len) (suc i) (len - 1) gs in
    let sep = if i == 0 || (ltb 0 len && i == start + len) then [] else codes ":" in
    let shown = sep ++ (hex_group g ++ render_groups (start, len) (suc i) 0 gs) in
    if ltb 0 len && i == start then hidden else shown

-- `To4() != nil` of 16 bytes: an IPv4 address in its IPv6 form.
is_mapped : Bytes → Bool
is_mapped s = all (λ b. b == 0) (take 10 s) && byte_at s 10 == 255 && byte_at s 11 == 255

-- `net.IP.String` of 16 bytes.
unfoldable pub ipv6_string : Bytes → Bytes
unfolding is_mapped ipv4_string groups longest_run render_groups
ipv6_string s =
    let dotted = ipv4_string (byte_at s 12) (byte_at s 13) (byte_at s 14) (byte_at s 15) in
    let gs = groups s in
    if is_mapped s then dotted else render_groups (longest_run 0 gs (255, 0)) 0 0 gs

ipv6_string_compressed :
    ipv6_string (32 ∷ 1 ∷ 13 ∷ 184 ∷ 0 ∷ 0 ∷ 0 ∷ 0 ∷ 0 ∷ 0 ∷ 0 ∷ 0 ∷ 0 ∷ 0 ∷ 0 ∷ 1 ∷ [])
    ≡ codes "2001:db8::1"
unfolding ipv6_string itoa
ipv6_string_compressed = refl

ipv6_string_loopback :
    ipv6_string (0 ∷ 0 ∷ 0 ∷ 0 ∷ 0 ∷ 0 ∷ 0 ∷ 0 ∷ 0 ∷ 0 ∷ 0 ∷ 0 ∷ 0 ∷ 0 ∷ 0 ∷ 1 ∷ []) ≡ codes "::1"
unfolding ipv6_string itoa
ipv6_string_loopback = refl

ipv4_string_test : ipv4_string 10 0 255 7 ≡ codes "10.0.255.7"
unfolding ipv4_string itoa
ipv4_string_test = refl

-- `net.IPv4`: the 16-byte form.
abbrev pub ipv4 : ℕ → ℕ → ℕ → ℕ → Bytes
ipv4 a b c d = 0 ∷ 0 ∷ 0 ∷ 0 ∷ 0 ∷ 0 ∷ 0 ∷ 0 ∷ 0 ∷ 0 ∷ 255 ∷ 255 ∷ a ∷ b ∷ c ∷ d ∷ []

-- `net.IP.To4`: four bytes, or the last four of an IPv4 address in its 16-byte form.
unfoldable pub to4 : Bytes → Option Bytes
unfolding is_mapped
to4 s =
    if length s == 4
    then some s
    else if length s == 16 && is_mapped s
    then some (drop 12 s)
    else none

pub length-to4 : (ip ip4 : Bytes) → to4 ip ≡ some ip4 → length ip4 ≡ 4
unfolding to4
length-to4 ip ip4 h = ground (arith, length-drop 12 ip)
