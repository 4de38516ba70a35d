-- ===== src/Engine/DnsForward/Answers.antt =====
-- What a forwarded query gets back.
use sshcustom_vpnchain.Base.{
  ℕ, zero, suc, ◌≤◌, ◌<◌, ◌≡◌, refl, sym, ap, ◌∙◌, inl, inr, true, false, Option, none, some, List,
  [], ◌∷◌, ◌++◌, arith, Bool-cases, is_some, length, take, any, Bytes,
}
use sshcustom_vpnchain.Base.Res.{Res, ok, err}
use sshcustom_vpnchain.Net.Conn.{Conn, Fault, split_at-append}
use sshcustom_vpnchain.Engine.DnsForward.{
  awaited_client, dns_frame, dns_exchange, replied_with, over_stream, over_client,
  forward_one_dns_query, forward_datagram,
}
use sshcustom_vpnchain.Udpgw.Frames.{uint16_at-put}
use sshcustom_vpnchain.Engine.DnsForward.{
  Upstream, ReplySocket, dns_response, responded_with, written_back,
}
use sshcustom_vpnchain.Base.{append_assoc, if◌then◌else◌}
use sshcustom_vpnchain.Udpgw.{put_uint16}

response-read :
    (c : Conn) (resp rest : Bytes)
    → 12 ≤ length resp
    → length resp < 65536
    → c.input ≡ dns_frame resp ++ rest
    → (dns_response c).0 ≡ ok resp
unfolding dns_response
response-read c resp rest low high e =
    ground (arith, uint16_at-put (length resp) [], split_at-append resp rest)

exchange-answer :
    (query resp rest : Bytes) (u : Upstream)
    → 12 ≤ length resp
    → length resp < 65536
    → u.broken ≡ false
    → u.responds (dns_frame query) ≡ dns_frame resp ++ rest
    → dns_exchange query u ≡ ok resp
unfolding dns_exchange responded_with
exchange-answer query resp rest u low high up e = rw up (
    response-read
      (record { input = u.responds (dns_frame query); output = dns_frame query; broken = false })
      resp rest low high e)

over_dialled :
    (l : ReplySocket) (query : Bytes) (looks : List (Option ℕ)) (dial : ℕ → Option Upstream)
    (client : ℕ) (u : Upstream)
    → 12 ≤ length query
    → awaited_client 4 looks ≡ some client
    → dial client ≡ some u
    → forward_datagram l query looks dial ≡ replied_with l (dns_exchange query u)
unfolding forward_datagram forward_one_dns_query over_client over_stream
over_dialled l query looks dial client u long held dialled =
    ground (arith, ap (over_client l query dial) held, ap (over_stream l query) dialled)

-- A query is answered through the tunnel: when the client is there within four rounds of waiting, a
-- stream to the upstream opens, and the upstream responds to the framed query with a message of 12 to
-- 65535 bytes and its length, then that message goes back to the phone byte for byte, without its
-- length, if the UDP socket takes a datagram of that size, and nothing goes back otherwise.
pub forward_datagram-answer :
    (l : ReplySocket) (query resp rest : Bytes) (looks : List (Option ℕ))
    (dial : ℕ → Option Upstream) (client : ℕ) (u : Upstream)
    → 12 ≤ length query
    → awaited_client 4 looks ≡ some client
    → dial client ≡ some u
    → 12 ≤ length resp
    → length resp < 65536
    → u.broken ≡ false
    → u.responds (put_uint16 (length query) ++ query) ≡ put_uint16 (length resp) ++ (resp ++ rest)
    → forward_datagram l query looks dial ≡ (if l.takes resp then some resp else none)
unfolding replied_with written_back
forward_datagram-answer l query resp rest looks dial client u long held dialled low high up e =
    over_dialled l query looks dial client u long held dialled
    ∙ ap (replied_with l) (
        exchange-answer query resp rest u low high up
          (e ∙ sym (append_assoc (put_uint16 (length resp)) resp rest)))

-- No client in any of the five looks: the query is dropped, and no stream is opened for it.
all_missing :
    (n : ℕ) (looks : List (Option ℕ))
    → any is_some (take (suc n) looks) ≡ false
    → awaited_client n looks ≡ none
unfolding awaited_client
all_missing n [] h = refl
all_missing n (some client ∷ looks) h = absurd (ground arith)
all_missing zero (none ∷ looks) h = refl
all_missing (suc n) (none ∷ looks) h = all_missing n looks h

replied-ok :
    (l : ReplySocket) (r : Res Fault Bytes) (resp : Bytes)
    → replied_with l r ≡ some resp
    → r ≡ ok resp
unfolding replied_with written_back
replied-ok l (ok x) resp h = ground arith
replied-ok l (err e) resp h = absurd (ground arith)

stream-some :
    (l : ReplySocket) (query resp : Bytes) (o : Option Upstream)
    → over_stream l query o ≡ some resp
    → (u : Upstream) × (o ≡ some u) × (dns_exchange query u ≡ ok resp)
unfolding over_stream
stream-some l query resp none h = absurd (ground arith)
stream-some l query resp (some u) h = (u, refl, replied-ok l (dns_exchange query u) resp h)

client-some :
    (l : ReplySocket) (query resp : Bytes) (dial : ℕ → Option Upstream) (o : Option ℕ)
    → over_client l query dial o ≡ some resp
    → (client : ℕ) × (u : Upstream) × (o ≡ some client)
      × (dial client ≡ some u)
      × (dns_exchange query u ≡ ok resp)
unfolding over_client
client-some l query resp dial none h = absurd (ground arith)
client-some l query resp dial (some client) h =
    let found = stream-some l query resp (dial client) h in
    (client, found.0, refl, found.1, found.2)

-- The forwarder is fail-closed: where a query is answered, one of the first five looks showed a
-- client, and the answer came over a stream that was dialled through a client.
pub forward_datagram_closed :
    (l : ReplySocket) (query resp : Bytes) (looks : List (Option ℕ)) (dial : ℕ → Option Upstream)
    → forward_datagram l query looks dial ≡ some resp
    → (any is_some (take 5 looks) ≡ true)
      × ((client : ℕ) × (u : Upstream) × (dial client ≡ some u) × (dns_exchange query u ≡ ok resp))
unfolding forward_datagram forward_one_dns_query over_client over_stream
forward_datagram_closed l query resp looks dial h =
    let asked : forward_one_dns_query l query looks dial ≡ some resp = ground arith in
    let found = client-some l query resp dial (awaited_client 4 looks) asked in
    let seen : any is_some (take 5 looks) ≡ true = elim (Bool-cases (any is_some (take 5 looks))) [
      | inl yes_seen ↦ yes_seen
      | inr missing ↦ absurd (ground (arith, sym (all_missing 4 looks missing) ∙ found.2))
    ] in
    (seen, (found.0, found.1, found.3, found.4))
