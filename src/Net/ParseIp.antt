-- ===== src/Net/ParseIp.antt =====
-- Text as addresses: `net.ParseIP`, which is `netip.ParseAddr` where that finds no zone, and the
-- tests of `net.IP` on its 16 bytes.
pub mod Printed
use sshcustom_vpnchain.Base.{
  ℕ, zero, suc, ◌+◌, ◌-◌, ◌*◌, ◌/◌, ◌%◌, ◌≡◌, refl, Bool, true, false, not, ◌&&◌, ◌||◌, Option,
  none, some, List, [], ◌∷◌, ◌++◌, map, ltb, leb, ◌==◌, if◌then◌else◌, is_some, length, take, drop,
  is_empty, Bytes, codes,
}
use mathlib.Core.Option
use sshcustom_vpnchain.Base.Text.{has_prefix}
use sshcustom_vpnchain.Net.Ip.{ipv4}
use sshcustom_vpnchain.Net.HostPort.{has_byte}
use sshcustom_vpnchain.Net.Conn.{byte_at}
use sshcustom_vpnchain.Base.Decimal.{is_digit}

-- The end of the text inside a field: it is the fourth, and has a digit.
ipv4_ended : List ℕ → ℕ → ℕ → Option Bytes
ipv4_ended (c ∷ b ∷ a ∷ []) value (suc n) = some (a ∷ b ∷ c ∷ value ∷ [])
ipv4_ended _ value n = none

-- `parseIPv4Fields` from inside a field on: the fields read so far in reverse order, the value of
-- this one, and how many digits it has. A field has no leading zero and is at most 255; a dot
-- follows a digit, and a fourth field is the last.
unfoldable pub ipv4_fields : List ℕ → ℕ → ℕ → Bytes → Option Bytes
unfolding ipv4_ended
ipv4_fields fields value n [] = ipv4_ended fields value n
ipv4_fields fields value n (c ∷ s) =
    let digit = ipv4_fields fields (value * 10 + (c - b'0')) (suc n) s in
    let next = ipv4_fields (value ∷ fields) 0 0 s in
    if is_digit c
    then (if (n == 1 && value == 0) || ltb 255 (value * 10 + (c - b'0')) then none else digit)
    else if c == b'.'
    then (if n == 0 || is_empty s || length fields == 3 then none else next)
    else none

unfoldable pub parse_ipv4 : Bytes → Option Bytes
unfolding ipv4_fields
parse_ipv4 s = ipv4_fields [] 0 0 s

hex_value : ℕ → Option ℕ
hex_value c =
    if is_digit c
    then some (c - b'0')
    else if leb b'a' c && leb c b'f'
    then some (c - b'a' + 10)
    else if leb b'A' c && leb c b'F'
    then some (c - b'A' + 10)
    else none

-- The digits at the start of the text: how many there are, their value, and what follows.
hex_digits : ℕ → ℕ → Bytes → ℕ × ℕ × Bytes
unfolding hex_value
hex_digits n acc [] = (n, acc, [])
hex_digits n acc (c ∷ s) = elim (hex_value c) [
  | none ↦ (n, acc, c ∷ s)
  | some v ↦ hex_digits (suc n) (acc * 16 + v) s
]

-- What the loop of `parseIPv6` has: the bytes so far, and where `::` stood.
abbrev Groups : Type 0
Groups = Bytes × Option ℕ

starts_with : ℕ → Bytes → Bool
starts_with c [] = false
starts_with c (d ∷ s) = d == c

-- The end of an address in dotted form.
dotted_end : Bytes → Option ℕ → Bytes → Option Groups
unfolding parse_ipv4
dotted_end out gap s =
    let last = Option.map (λ (four : Bytes). (out ++ four, gap)) (parse_ipv4 s) in
    if (not (is_some gap) && not (length out == 12)) || ltb 12 (length out) then none else last

-- The loop, for at most so many groups more.
ipv6_groups : ℕ → Bytes → Option ℕ → Bytes → Option Groups
unfolding hex_digits dotted_end starts_with
ipv6_groups zero out gap s = if is_empty s then some (out, gap) else none
ipv6_groups (suc n) out gap s =
    let h = hex_digits 0 0 s in
    let grown = out ++ (h.1 / 256 ∷ h.1 % 256 ∷ []) in
    let dotted = dotted_end out gap s in
    let after_gap = ipv6_groups n grown (some (length grown)) (drop 2 h.2) in
    let after_colon = ipv6_groups n grown gap (drop 1 h.2) in
    if h.0 == 0 || ltb 4 h.0
    then none
    else if starts_with b'.' h.2
    then dotted
    else if is_empty h.2
    then some (grown, gap)
    else if not (starts_with b':' h.2) || length h.2 == 1
    then none
    else if starts_with b':' (drop 1 h.2)
    then (if is_some gap
        then none
        else if length h.2 == 2
        then some (grown, some (length grown))
        else after_gap)
    else after_colon

zeros : ℕ → Bytes
zeros zero = []
zeros (suc n) = 0 ∷ zeros n

-- `::` stands for at least one group of zeros.
expanded : Option Groups → Option Bytes
unfolding zeros
expanded none = none
expanded (some (out, none)) = if length out == 16 then some out else none
expanded (some (out, some gap)) =
    if ltb (length out) 16
    then some (take gap out ++ (zeros (16 - length out) ++ drop gap out))
    else none

unfoldable pub parse_ipv6 : Bytes → Option Bytes
unfolding ipv6_groups expanded
parse_ipv6 s =
    let leading = ipv6_groups 8 [] (some 0) (drop 2 s) in
    let plain = ipv6_groups 8 [] none s in
    let groups =
      if has_prefix s (codes "::")
      then (if length s == 2 then some ([], some 0) else leading)
      else plain in
    if has_byte b'%' s then none else expanded groups

-- Which of the two forms a text is in: that of its first dot or colon.
unfoldable pub is_dotted : Bytes → Bool
is_dotted [] = false
is_dotted (c ∷ s) = if c == b'.' then true else if c == b':' then false else is_dotted s

-- `net.ParseIP`: 16 bytes, or `nil`.
unfoldable pub parse_ip : Bytes → Option Bytes
unfolding is_dotted parse_ipv4 parse_ipv6
parse_ip s =
    let v4 =
      Option.map
        (λ (four : Bytes). ipv4 (byte_at four 0) (byte_at four 1) (byte_at four 2) (byte_at four 3))
        (parse_ipv4 s) in
    let v6 = parse_ipv6 s in if is_dotted s then v4 else v6

parse_ip_test :
    (parse_ip (codes "127.0.0.1") ≡ some (ipv4 127 0 0 1))
    × (parse_ip (codes "256.0.0.1") ≡ none)
    × (parse_ip (codes "01.0.0.1") ≡ none)
    × (parse_ip (codes "1.2.3") ≡ none)
    × (parse_ip (codes "1.2.3.4.5") ≡ none)
    × (parse_ip (codes "::1")
        ≡ some (0 ∷ 0 ∷ 0 ∷ 0 ∷ 0 ∷ 0 ∷ 0 ∷ 0 ∷ 0 ∷ 0 ∷ 0 ∷ 0 ∷ 0 ∷ 0 ∷ 0 ∷ 1 ∷ []))
    × (parse_ip (codes "2001:db8::1:0")
        ≡ some (32 ∷ 1 ∷ 13 ∷ 184 ∷ 0 ∷ 0 ∷ 0 ∷ 0 ∷ 0 ∷ 0 ∷ 0 ∷ 0 ∷ 0 ∷ 1 ∷ 0 ∷ 0 ∷ []))
    × (parse_ip (codes "::ffff:10.0.0.7") ≡ some (ipv4 10 0 0 7))
    × (parse_ip (codes "1::2::3") ≡ none)
    × (parse_ip (codes "fe80::1%eth0") ≡ none)
    × (parse_ip (codes "1:2:3:4:5:6:7:8::") ≡ none)
    × (parse_ip (codes "example.com") ≡ none)
unfolding parse_ip
parse_ip_test = (refl, refl, refl, refl, refl, refl, refl, refl, refl, refl, refl, refl)
