-- ===== src/Engine/DnsForward.antt =====
-- engine.go: `forwardOneDNSQuery`, and the filter of `dnsForwardLoop`. A stream is what its upstream answers to what
-- is written; what `curClient()` gives each time it is asked is a list.
pub mod Answers
use sshcustom_vpnchain.Base.{
  ℕ, zero, suc, ◌||◌, Option, none, some, List, [], ◌∷◌, ◌++◌, ltb, if◌then◌else◌, length, Bytes,
}
use sshcustom_vpnchain.Base.Res.{Res, ok, err}
use sshcustom_vpnchain.Net.Conn.{Conn, M, Fault, ◌>>=◌, ◌>>◌, refuse_if, read_full, write}
use sshcustom_vpnchain.Udpgw.{put_uint16, uint16_at}
use sshcustom_vpnchain.Base.{Bool}

-- The client, asked for once and then up to four times more, half a second apart.
unfoldable pub awaited_client : ℕ → List (Option ℕ) → Option ℕ
awaited_client rounds [] = none
awaited_client rounds (some client ∷ looks) = some client
awaited_client zero (none ∷ looks) = none
awaited_client (suc rounds) (none ∷ looks) = awaited_client rounds looks

-- RFC 1035: two bytes of length before the message.
abbrev pub dns_frame : Bytes → Bytes
dns_frame query = put_uint16 (length query) ++ query

-- A stream to the upstream: whether writes to it fail, and what it sends before it closes, by what it
-- has been sent.
pub record Upstream : Type 0 where
  pub broken : Bool
  pub responds : Bytes → Bytes

-- The stream once something has been written: its input is the upstream's response to that.
abbrev pub responded : (Bytes → Bytes) → Conn → Conn
responded responds c = record c { input = responds c.output }

-- What is read of the response.
unfoldable pub dns_response : M Bytes
dns_response = do
  len_hdr ← read_full 2
  let resp_len = uint16_at len_hdr 0
  refuse_if (ltb resp_len 12 || ltb 65535 resp_len) resp_len
  read_full resp_len

responded_with : (Bytes → Bytes) → Res Fault (Unit {0}) × Conn → Res Fault Bytes
responded_with responds (ok sent, c) = (dns_response (responded responds c)).0
responded_with responds (err e, c) = err e

-- The exchange on the stream.
unfoldable pub dns_exchange : Bytes → Upstream → Res Fault Bytes
unfolding responded_with dns_response
dns_exchange query u =
    responded_with u.responds
      (write (dns_frame query) (record { input = []; output = []; broken = u.broken }))

-- The socket of the listener: whether it takes a datagram, which UDP over IPv4 does up to 65507 bytes.
pub record ReplySocket : Type 0 where
  pub takes : Bytes → Bool

-- `WriteToUDP`, whose error is passed over.
unfoldable pub written_back : ReplySocket → Bytes → Option Bytes
written_back l resp = if l.takes resp then some resp else none

replied_with : ReplySocket → Res Fault Bytes → Option Bytes
unfolding written_back
replied_with l (ok resp) = written_back l resp
replied_with l (err e) = none

over_stream : ReplySocket → Bytes → Option Upstream → Option Bytes
unfolding replied_with dns_exchange
over_stream l query none = none
over_stream l query (some u) = replied_with l (dns_exchange query u)

over_client : ReplySocket → Bytes → (ℕ → Option Upstream) → Option ℕ → Option Bytes
unfolding over_stream
over_client l query dial none = none
over_client l query dial (some client) = over_stream l query (dial client)

-- `forwardOneDNSQuery`: the datagram that is written back, if any. `dial` is `DialTCP` to the
-- upstream, through a client.
unfoldable pub forward_one_dns_query :
    ReplySocket → Bytes → List (Option ℕ) → (ℕ → Option Upstream) → Option Bytes
unfolding over_client
forward_one_dns_query l query looks dial = over_client l query dial (awaited_client 4 looks)

-- A datagram of `dnsForwardLoop`: one that is shorter than a header is passed over.
unfoldable pub forward_datagram :
    ReplySocket → Bytes → List (Option ℕ) → (ℕ → Option Upstream) → Option Bytes
forward_datagram l query looks dial =
    let answer = forward_one_dns_query l query looks dial in
    if ltb (length query) 12 then none else answer
