-- ===== src/Socks/Request.antt =====
-- SOCKS5 requests (RFC 1928) independently of the code that reads them: their bytes, and the
-- host:port text that each asks for.
use sshcustom_vpnchain.Base.{ℕ, ◌+◌, ◌*◌, ◌≤◌, ◌<◌, ◌≡◌, ◌∷◌, ◌++◌, length, Bytes}
use sshcustom_vpnchain.Base.Decimal.{itoa}
use sshcustom_vpnchain.Net.Ip.{ipv4_string, ipv6_string}
use sshcustom_vpnchain.Net.HostPort.{join_host_port}

pub data Address : Type 0 where
  v4 : ℕ → ℕ → ℕ → ℕ → Address
  domain : Bytes → Address
  v6 : Bytes → Address

pub record Request : Type 0 where
  pub methods : Bytes
  pub reserved : ℕ
  pub address : Address
  pub port_high : ℕ
  pub port_low : ℕ

abbrev pub encode_address : Address → Bytes → Bytes
encode_address (v4 a b c d) rest = a ∷ b ∷ c ∷ d ∷ rest
encode_address (domain name) rest = length name ∷ (name ++ rest)
encode_address (v6 bs) rest = bs ++ rest

abbrev pub address_type : Address → ℕ
address_type (v4 _ _ _ _) = 1
address_type (domain _) = 3
address_type (v6 _) = 4

abbrev pub encode_request : Request → Bytes → Bytes
encode_request r rest =
    5
    ∷ 1
    ∷ r.reserved
    ∷ address_type r.address
    ∷ encode_address r.address (r.port_high ∷ r.port_low ∷ rest)

-- The greeting and the request, before what follows them on the stream.
abbrev pub encode : Request → Bytes → Bytes
encode r rest = 5 ∷ length r.methods ∷ (r.methods ++ encode_request r rest)

abbrev pub host_of : Address → Bytes
host_of (v4 a b c d) = ipv4_string a b c d
host_of (domain name) = name
host_of (v6 bs) = ipv6_string bs

abbrev pub target : Request → Bytes
target r = join_host_port (host_of r.address) (itoa (r.port_high * 256 + r.port_low))

abbrev pub IsAddress : Address → Type 0
IsAddress (v4 _ _ _ _) = Unit {0}
IsAddress (domain name) = 0 < length name
IsAddress (v6 bs) = length bs ≡ 16

-- At least one method and at most 255; a domain that is not empty; 16 bytes of an IPv6 address.
pub record IsRequest (r : Request) : Type 0 where
  pub some_method : 0 < length r.methods
  pub few_methods : length r.methods ≤ 255
  pub address_fits : IsAddress r.address
