-- ===== src/Udpgw.antt =====
-- cmd/sshcustomd/udpgw.go: frames of the UDP gateway, and the tunnel that carries them over one SSH
-- channel. Times are nanoseconds of a monotonic clock. A channel of responses is the list of what
-- waits in it.
pub mod Frames
pub mod Retry
pub mod Relay
use sshcustom_vpnchain.Base.{
  ℕ, ◌+◌, ◌*◌, ◌/◌, ◌%◌, ◌^◌, Bool, true, false, not, ◌&&◌, ◌||◌, Option, none, some, List, [], ◌∷◌,
  ◌++◌, ltb, ◌==◌, if◌then◌else◌, is_some, length, drop, Bytes, codes,
}
use sshcustom_vpnchain.Base.Decimal.{itoa}
use sshcustom_vpnchain.Base.Res.{Res, ok, err}
use sshcustom_vpnchain.Base.Assoc.{find, put, remove}
use sshcustom_vpnchain.Net.Conn.{M, Fault, ◌>>=◌, ◌>>◌, pure, refuse_if, read_full, byte_at}
use sshcustom_vpnchain.Net.Ip.{ipv6_string, ipv4, to4}

abbrev pub udpgw_addr_type_ipv4 : ℕ
udpgw_addr_type_ipv4 = 1

abbrev pub udpgw_header_size : ℕ
udpgw_header_size = 7

abbrev pub udpgw_max_payload : ℕ
udpgw_max_payload = 65507

-- `binary.BigEndian.PutUint16` of `uint16(n)`, and `Uint16`.
abbrev pub put_uint16 : ℕ → Bytes
put_uint16 n = (n / 256 % 256) ∷ (n % 256) ∷ []

abbrev pub uint16_at : Bytes → ℕ → ℕ
uint16_at s i = byte_at s i * 256 + byte_at s (i + 1)

-- `ip.To4()`, or `net.IPv4zero` (of which `copy` takes four zero bytes).
abbrev pub address_or_zero : Option Bytes → Bytes
address_or_zero none = 0 ∷ 0 ∷ 0 ∷ 0 ∷ []
address_or_zero (some ip4) = ip4

-- `packUDPGW`.
unfoldable pub pack_udpgw : Bytes → ℕ → Bytes → Bytes
pack_udpgw ip port payload =
    put_uint16 (udpgw_header_size + length payload)
    ++ (udpgw_addr_type_ipv4 ∷ (address_or_zero (to4 ip) ++ (put_uint16 port ++ payload)))

-- What `readUDPGWFrame` returns: the source address and port, and the payload.
pub record Datagram : Type 0 where
  pub ip : Bytes
  pub port : ℕ
  pub payload : Bytes

-- `readUDPGWFrame`.
unfoldable pub read_udpgw_frame : M Datagram
read_udpgw_frame = do
  hdr ← read_full 2
  let data_len = uint16_at hdr 0
  refuse_if (ltb data_len udpgw_header_size || ltb (udpgw_header_size + udpgw_max_payload) data_len)
      data_len
  frame ← read_full data_len
  refuse_if (not (byte_at frame 0 == udpgw_addr_type_ipv4)) (byte_at frame 0)
  pure (record {
    ip = ipv4 (byte_at frame 1) (byte_at frame 2) (byte_at frame 3) (byte_at frame 4);
    port = uint16_at frame 5;
    payload = drop 7 frame;
  })

-- `udpgwTunnel`: the channel's number where it is open, and the response channels by key.
pub record Tunnel : Type 0 where
  pub conn : Option ℕ
  pub dead : Bool
  pub failed_once : Bool
  pub last_dial_try : ℕ
  pub cancelled : Bool
  pub resp_ch : List (Bytes × List Bytes)

-- `newUDPGWTunnel`.
abbrev pub new_tunnel : Tunnel
new_tunnel = record {
  conn = none;
  dead = false;
  failed_once = false;
  last_dial_try = 0;
  cancelled = false;
  resp_ch = [];
}

-- 30 seconds.
abbrev pub retry_window : ℕ
retry_window = 30 * 10 ^ 9

-- What `dial` meets: the time, whether `t.cur()` is a client and alive, and how its `DialTCP` ends.
pub record Surroundings : Type 0 where
  pub now : ℕ
  pub client_usable : Bool
  pub dialled : Option ℕ

-- How `dial` returns: `nil` with or without a new connection, or one of its three errors.
pub data DialResult : Type 0 where
  connected reconnected : DialResult
  retry_later no_client dial_failed : DialResult

abbrev pub is_open : Tunnel → Bool
is_open t = is_some t.conn && not t.dead

dial_with : Tunnel → Surroundings → Option ℕ → Tunnel × DialResult
dial_with t e none = (record t { last_dial_try = e.now; failed_once = true }, dial_failed)
dial_with t e (some conn) = (
  record t { last_dial_try = e.now; conn = some conn; dead = false; failed_once = false },
  reconnected,
)

-- `dial`.
unfoldable pub dial : Tunnel → Surroundings → Tunnel × DialResult
unfolding dial_with
dial t e =
    if is_open t
    then (t, connected)
    else if t.failed_once && ltb e.now (t.last_dial_try + retry_window)
    then (t, retry_later)
    else if not e.client_usable
    then (t, no_client)
    else dial_with t e e.dialled

-- How `Send` returns: the frame was written, dropped in silence, or an error.
pub data SendResult : Type 0 where
  written : Bytes → SendResult
  dropped failed : SendResult

send_on : Option ℕ → Bytes → Bool → SendResult
send_on none frame write_ok = dropped
send_on (some conn) frame write_ok = if write_ok then written frame else failed

send_after : Tunnel × DialResult → Bytes → Bool → Tunnel × SendResult
unfolding send_on
send_after (t, connected) frame write_ok = (t, send_on t.conn frame write_ok)
send_after (t, reconnected) frame write_ok = (t, send_on t.conn frame write_ok)
send_after (t, _) frame write_ok = (t, if t.failed_once then dropped else failed)

-- `Send`; the flag says whether `conn.Write` succeeds.
unfoldable pub send : Tunnel → Surroundings → Bytes → ℕ → Bytes → Bool → Tunnel × SendResult
unfolding send_after
send t e ip port payload write_ok = send_after (dial t e) (pack_udpgw ip port payload) write_ok

-- `ResponseChan`: a fresh channel for the key.
unfoldable pub response_chan : Tunnel → Bytes → Tunnel
response_chan t key = record t { resp_ch = put key [] t.resp_ch }

-- `ReleaseResponse`.
unfoldable pub release_response : Tunnel → Bytes → Tunnel
release_response t key = record t { resp_ch = remove key t.resp_ch }

-- The key of a response: `fmt.Sprintf("%s:%d", srcIP.String(), srcPort)`.
abbrev pub response_key : Datagram → Bytes
response_key d = ipv6_string d.ip ++ (codes ":" ++ itoa d.port)

abbrev pub channel_size : ℕ
channel_size = 16

offer : Tunnel → Bytes → Bytes → Option (List Bytes) → Tunnel
offer t key payload none = t
offer t key payload (some waiting) =
    if ltb (length waiting) channel_size
    then record t { resp_ch = put key (waiting ++ payload ∷ []) t.resp_ch }
    else t

-- One frame of `readLoop`: a send that never blocks to the channel of its key.
unfoldable pub deliver : Tunnel → Datagram → Tunnel
unfolding offer
deliver t d = offer t (response_key d) d.payload (find (response_key d) t.resp_ch)

-- The deferred part of `readLoop`.
unfoldable pub read_loop_exit : Tunnel → Tunnel
read_loop_exit t = record t { conn = none; dead = true }

next_frame : Tunnel → Res Fault Datagram → Tunnel × Bool
unfolding deliver read_loop_exit
next_frame t (ok d) = (deliver t d, true)
next_frame t (err e) = (read_loop_exit t, false)

-- One round of `readLoop`, given how `readUDPGWFrame` ends; the flag says whether it goes on.
unfoldable pub read_loop_round : Tunnel → Res Fault Datagram → Tunnel × Bool
unfolding next_frame
read_loop_round t frame =
    if t.cancelled || not (is_some t.conn) then (read_loop_exit t, false) else next_frame t frame

-- `Close`.
unfoldable pub close : Tunnel → Tunnel
close t = record t { cancelled = true; conn = none }
