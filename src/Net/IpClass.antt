-- ===== src/Net/IpClass.antt =====
-- The text and the classes of an address that is known by its bytes, 4 or 16 of them: `net.IP`'s
-- `String`, `IsLoopback`, `IsUnspecified` and `IsMulticast`.
use sshcustom_vpnchain.Base.{
  ℕ, ◌/◌, Bool, false, ◌&&◌, Option, none, some, [], ◌∷◌, ◌==◌, if◌then◌else◌, length, Bytes,
}
use sshcustom_vpnchain.Net.Ip.{to4, ipv4_string, ipv6_string}
use sshcustom_vpnchain.Net.Conn.{byte_at}

-- `net.IP.String`.
unfoldable pub ip_string : Bytes → Bytes
ip_string ip =
    if length ip == 4
    then ipv4_string (byte_at ip 0) (byte_at ip 1) (byte_at ip 2) (byte_at ip 3)
    else ipv6_string ip

-- All bytes but the last are 0, and that is as given.
ends_in : ℕ → Bytes → Bool
ends_in b [] = false
ends_in b (c ∷ []) = c == b
ends_in b (c ∷ d ∷ s) = c == 0 && ends_in b (d ∷ s)

on_ipv4 : Bool → (Bytes → Bool) → Option Bytes → Bool
on_ipv4 otherwise test none = otherwise
on_ipv4 otherwise test (some ip4) = test ip4

unfoldable pub is_loopback : Bytes → Bool
unfolding to4 ends_in on_ipv4
is_loopback ip = on_ipv4 (length ip == 16 && ends_in 1 ip) (λ ip4. byte_at ip4 0 == 127) (to4 ip)

unfoldable pub is_unspecified : Bytes → Bool
unfolding to4 ends_in on_ipv4
is_unspecified ip = on_ipv4 (length ip == 16 && ends_in 0 ip) (ends_in 0) (to4 ip)

-- `ip4[0]&0xf0 == 0xe0`, and `ip[0] == 0xff`.
unfoldable pub is_multicast : Bytes → Bool
unfolding to4 on_ipv4
is_multicast ip =
    on_ipv4 (length ip == 16 && byte_at ip 0 == 255) (λ ip4. byte_at ip4 0 / 16 == 14) (to4 ip)
