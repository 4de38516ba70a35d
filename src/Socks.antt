-- ===== src/Socks.antt =====
-- cmd/sshcustomd/main.go: the SOCKS5 dialogue. The server side is `socks5Handshake` and
-- `socks5Reply`; the client side is that of `fetchHTTPViaLocalSOCKS` and `readSOCKS5ConnectReply`.
pub mod Request
pub mod Server
pub mod Sound
pub mod Client
use sshcustom_vpnchain.Base.{
  ℕ, ◌+◌, ◌*◌, ◌/◌, ◌%◌, not, ◌||◌, [], ◌∷◌, ◌++◌, ltb, ◌==◌, if◌then◌else◌, length, Bytes,
}
use sshcustom_vpnchain.Base.Decimal.{itoa}
use sshcustom_vpnchain.Base.Res.{err}
use sshcustom_vpnchain.Net.Conn.{
  M, refused, ◌>>=◌, ◌>>◌, pure, fail, refuse_if, read_full, write, byte_at,
}
use sshcustom_vpnchain.Net.Ip.{ipv4_string, ipv6_string}
use sshcustom_vpnchain.Net.HostPort.{join_host_port}

-- `socks5Reply`.
abbrev pub socks5_reply_bytes : ℕ → Bytes
socks5_reply_bytes rep = 5 ∷ rep ∷ 0 ∷ 1 ∷ 0 ∷ 0 ∷ 0 ∷ 0 ∷ 0 ∷ 0 ∷ []

abbrev pub socks5_reply : ℕ → M (Unit {0})
socks5_reply rep = write (socks5_reply_bytes rep)

-- `_ = socks5Reply(c, rep)`, then an error: a failed write is ignored.
abbrev pub reply_and_fail : {A : Type 0} → ℕ → ℕ → M A
reply_and_fail rep why c = (err (refused why), (socks5_reply rep c).1)

read_v4 : M Bytes
read_v4 = do
  buf ← read_full 4
  pure (ipv4_string (byte_at buf 0) (byte_at buf 1) (byte_at buf 2) (byte_at buf 3))

read_domain : M Bytes
read_domain = do buf ← read_full 1; refuse_if (byte_at buf 0 == 0) 0; read_full (byte_at buf 0)

read_v6 : M Bytes
read_v6 = do buf ← read_full 16; pure (ipv6_string buf)

-- The address of the request, by its type.
read_host : ℕ → M Bytes
unfolding read_v4 read_domain read_v6
read_host atyp =
    if atyp == 1
    then read_v4
    else if atyp == 3
    then read_domain
    else if atyp == 4
    then read_v6
    else reply_and_fail 8 atyp

-- The greeting: version, method count, methods; answered by "no authentication".
greeting : M (Unit {0})
greeting = do
  buf ← read_full 2
  refuse_if (not (byte_at buf 0 == 5)) (byte_at buf 0)
  let nmethods = byte_at buf 1
  refuse_if (ltb nmethods 1 || ltb 255 nmethods) nmethods
  methods ← read_full nmethods
  write (5 ∷ 0 ∷ [])

-- The address and the port of a request whose address type is known.
read_target : ℕ → M Bytes
read_target atyp = do
  host ← read_host atyp
  port ← read_full 2
  pure (join_host_port host (itoa (byte_at port 0 * 256 + byte_at port 1)))

-- The request: version, command, reserved byte, address type, address, port.
request : M Bytes
request = do
  buf ← read_full 4
  refuse_if (not (byte_at buf 0 == 5)) (byte_at buf 0)
  if byte_at buf 1 == 1 then pure tt else reply_and_fail 7 (byte_at buf 1)
  read_target (byte_at buf 3)

-- `socks5Handshake`.
unfoldable pub socks5_handshake : M Bytes
unfolding greeting request read_target read_host
socks5_handshake = do greeting; request

-- `io.CopyN(io.Discard, r, n)`.
abbrev pub discard : ℕ → M (Unit {0})
discard n = do skipped ← read_full n; pure tt

read_length : M ℕ
read_length = do l ← read_full 1; pure (byte_at l 0)

-- `readSOCKS5ConnectReply`.
unfoldable pub read_connect_reply : M (Unit {0})
unfolding read_length
read_connect_reply = do
  head ← read_full 4
  refuse_if (not (byte_at head 0 == 5)) (byte_at head 0)
  refuse_if (not (byte_at head 1 == 0)) (byte_at head 1)
  let atyp = byte_at head 3
  skip ←
      (if atyp == 1
        then pure 4
        else if atyp == 3
        then read_length
        else if atyp == 4
        then pure 16
        else fail (refused atyp))
  discard skip
  discard 2

-- The request that `fetchHTTPViaLocalSOCKS` writes for a host name and a port.
abbrev pub connect_request : Bytes → ℕ → Bytes
connect_request host port =
    5 ∷ 1 ∷ 0 ∷ 3 ∷ (length host % 256) ∷ (host ++ (port / 256 % 256) ∷ (port % 256) ∷ [])

-- The SOCKS part of `fetchHTTPViaLocalSOCKS`, from the greeting to the reply.
unfoldable pub socks_connect : Bytes → ℕ → M (Unit {0})
unfolding read_connect_reply
socks_connect host port = do
  write (5 ∷ 1 ∷ 0 ∷ [])
  reply ← read_full 2
  refuse_if (not (byte_at reply 0 == 5) || not (byte_at reply 1 == 0)) (byte_at reply 1)
  refuse_if (ltb 255 (length host)) (length host)
  write (connect_request host port)
  read_connect_reply
