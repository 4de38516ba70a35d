-- ===== src/Socks/Client.antt =====
-- The client of the SOCKS5 dialogue (`fetchHTTPViaLocalSOCKS`) against the server of the same
-- daemon (`socks5Handshake`, `socks5Reply`).
use sshcustom_vpnchain.Base.{
  ℕ, ◌+◌, ◌*◌, ◌/◌, ◌%◌, ◌≤◌, ◌<◌, ◌≡◌, ◌⊎◌, false, [], ◌∷◌, ◌++◌, append_assoc, arith, length,
  Bytes,
}
use sshcustom_vpnchain.Base.Decimal.{itoa}
use sshcustom_vpnchain.Base.Res.{ok, err}
use sshcustom_vpnchain.Net.Conn.{Conn, refused}
use sshcustom_vpnchain.Net.HostPort.{join_host_port}
use sshcustom_vpnchain.Socks.{
  read_connect_reply, socks5_handshake, socks5_reply_bytes, socks_connect, connect_request,
}
use sshcustom_vpnchain.Socks.Request.{Request, domain, encode}
use sshcustom_vpnchain.Socks.Server.{socks5_handshake-encode}

-- The client reads every reply of the server: it accepts the success reply, consumes its ten bytes
-- and leaves the rest of the stream, and refuses any other reply with that reply's code. It writes
-- nothing.
pub read_connect_reply-socks5_reply :
    (c : Conn) (rep : ℕ) (rest : Bytes)
    → c.input ≡ socks5_reply_bytes rep ++ rest
    → ((rep ≡ 0) × (read_connect_reply c ≡ (ok tt, record c { input = rest })))
      ⊎ ((0 < rep)
          × ((read_connect_reply c).0 ≡ err (refused rep))
          × ((read_connect_reply c).1.output ≡ c.output))
unfolding read_connect_reply
read_connect_reply-socks5_reply c rep rest e = ground arith

-- The request that the client writes, as a request of the protocol.
abbrev asked : Bytes → ℕ → Request
asked host port = record {
  methods = 0 ∷ [];
  reserved = 0;
  address = domain host;
  port_high = port / 256;
  port_low = port % 256;
}

-- The client's side of a dialogue with a server that accepts.
pub socks_connect-accepted :
    (c : Conn) (host rest : Bytes) (port : ℕ)
    → length host ≤ 255
    → port < 65536
    → c.broken ≡ false
    → c.input ≡ 5 ∷ 0 ∷ (socks5_reply_bytes 0 ++ rest)
    → socks_connect host port c
      ≡ (ok tt, record c { input = rest; output = c.output ++ encode (asked host port) [] })
unfolding socks_connect
socks_connect-accepted c host rest port h p w e =
    ground (arith, append_assoc c.output (5 ∷ 1 ∷ 0 ∷ []) (connect_request host port))

-- The server connects to what the client asks for: a dialogue in which the client names a host of 1
-- to 255 bytes and a 16-bit port ends, when the server answers with success, in success on both
-- sides; and the server, which reads what the client wrote, dials exactly `host:port`.
pub dialogue :
    (client server : Conn) (host rest : Bytes) (port : ℕ)
    → 0 < length host
    → length host ≤ 255
    → port < 65536
    → client.broken ≡ false
    → server.broken ≡ false
    → client.output ≡ []
    → client.input ≡ 5 ∷ 0 ∷ (socks5_reply_bytes 0 ++ rest)
    → server.input ≡ (socks_connect host port client).1.output
    → ((socks_connect host port client).0 ≡ ok tt)
      × (socks5_handshake server ≡ (
        ok (join_host_port host (itoa port)),
        record server { input = []; output = server.output ++ 5 ∷ 0 ∷ [] },
      ))
dialogue client server host rest port named few small w w' fresh e e' =
    let told = socks_connect-accepted client host rest port few small w e in
    let wrote : server.input ≡ encode (asked host port) [] = ground arith in
    let read =
      socks5_handshake-encode (asked host port) server []
        (record { some_method = omega arith; few_methods = omega arith; address_fits = named }) w'
        wrote in
    let same : port / 256 * 256 + port % 256 ≡ port = omega arith in (ground arith, rw same at read)
