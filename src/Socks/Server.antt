-- ===== src/Socks/Server.antt =====
-- `socks5Handshake` reads every request of RFC 1928 that asks for CONNECT.
use sshcustom_vpnchain.Base.{◌≡◌, refl, false, [], ◌∷◌, ◌++◌, arith, Bytes}
use sshcustom_vpnchain.Base.Res.{ok}
use sshcustom_vpnchain.Net.Conn.{Conn, split_at-append}
use sshcustom_vpnchain.Socks.{read_target, greeting, read_host, request, socks5_handshake}
use sshcustom_vpnchain.Socks.Request.{
  Request, Address, v4, domain, v6, encode_address, address_type, encode_request, encode, host_of,
  target, IsAddress, IsRequest,
}

read_host-encode :
    (a : Address) (c : Conn) (rest : Bytes)
    → IsAddress a
    → c.input ≡ encode_address a rest
    → read_host (address_type a) c ≡ (ok (host_of a), record c { input = rest })
unfolding read_host
read_host-encode (v4 w x y z) c rest h e = ground arith
read_host-encode (domain name) c rest h e = ground (arith, split_at-append name rest)
read_host-encode (v6 bs) c rest h e = rw e (ground (arith, h, split_at-append bs rest))

request-encode :
    (r : Request) (c : Conn) (rest : Bytes)
    → IsAddress r.address
    → c.input ≡ encode_request r rest
    → request c ≡ (ok (target r), record c { input = rest })
unfolding request read_target
request-encode r c rest h e = ground (
  arith,
  read_host-encode r.address
      (record c { input = encode_address r.address (r.port_high ∷ r.port_low ∷ rest) })
      (r.port_high ∷ r.port_low ∷ rest) h refl,
)

greeting-encode :
    (r : Request) (c : Conn) (rest : Bytes)
    → IsRequest r
    → c.broken ≡ false
    → c.input ≡ encode r rest
    → greeting c
      ≡ (ok tt, record c { input = encode_request r rest; output = c.output ++ 5 ∷ 0 ∷ [] })
unfolding greeting
greeting-encode r c rest h w e = ground (arith, split_at-append r.methods (encode_request r rest))

-- The handshake reads every CONNECT request of RFC 1928 and gives its host:port text: on a stream
-- that starts with the bytes of a well-formed request, over a connection that can be written, it
-- succeeds, consumes exactly those bytes, and has answered "no authentication" and nothing else.
pub socks5_handshake-encode :
    (r : Request) (c : Conn) (rest : Bytes)
    → IsRequest r
    → c.broken ≡ false
    → c.input ≡ encode r rest
    → socks5_handshake c
      ≡ (ok (target r), record c { input = rest; output = c.output ++ 5 ∷ 0 ∷ [] })
unfolding socks5_handshake
socks5_handshake-encode r c rest h w e = rw (greeting-encode r c rest h w e) (
    request-encode r (record c { input = encode_request r rest; output = c.output ++ 5 ∷ 0 ∷ [] })
      rest h.address_fits refl)
