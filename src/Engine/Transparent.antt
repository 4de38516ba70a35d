-- ===== src/Engine/Transparent.antt =====
-- cmd/sshcustomd/engine.go: `handleTransparentClient`, which serves a connection that the kernel
-- redirected; with where it was going to, from tproxy_linux.go and originaldst_linux.go, and
-- `isLocalOrBlockedTarget` of main.go. What the kernel answers is an argument: a `sockaddr_in` with
-- its port as the processor reads it, the low byte first. As in Engine/Streams a client is a number.
pub mod Blocked
pub mod Dropped
use sshcustom_vpnchain.Base.{
  ℕ, ◌+◌, ◌-◌, ◌*◌, ◌/◌, ◌%◌, ◌^◌, Bool, true, false, not, ◌&&◌, ◌||◌, Option, none, some, List, [],
  ◌∷◌, leb, ◌==◌, if◌then◌else◌, length, is_empty, all, ℤ, pos, negsuc, Bytes, codes,
}
use sshcustom_vpnchain.Base.Decimal.{itoa}
use sshcustom_vpnchain.Base.Decimal.{is_digit, atoi}
use sshcustom_vpnchain.Net.Conn.{byte_at}
use sshcustom_vpnchain.Net.Ip.{ipv4, ipv4_string}
use sshcustom_vpnchain.Net.IpClass.{ip_string, is_loopback, is_unspecified, is_multicast}
use sshcustom_vpnchain.Net.ParseIp.{parse_ip}
use sshcustom_vpnchain.Net.HostPort.{join_host_port, split_host_port}
use sshcustom_vpnchain.Base.Res.{Res, ok, err}
use sshcustom_vpnchain.Config.Data.{Config}
use sshcustom_vpnchain.Engine.Streams.{is_usable, mark_if_death, Attempt, dial_stream_with_retry}
use sshcustom_vpnchain.Base.Text.{has_prefix}
use sshcustom_vpnchain.Base.{int_eq}

-- What `LocalAddr` gives of a connection.
pub data LocalAddr : Type 0 where
  no_address other_address : LocalAddr
  tcp_address : Bytes → ℕ → LocalAddr

-- `tproxyDst`.
unfoldable pub tproxy_dst : LocalAddr → Option Bytes
unfolding is_loopback
tproxy_dst no_address = none
tproxy_dst other_address = none
tproxy_dst (tcp_address ip port) =
    if is_loopback ip then none else some (join_host_port (ip_string ip) (itoa port))

-- `syscall.RawSockaddrInet4`.
pub record Sockaddr : Type 0 where
  pub family : ℕ
  pub port : ℕ
  pub addr : Bytes

-- What `getsockopt(SO_ORIGINAL_DST)` gives.
pub data Answer : Type 0 where
  no_socket : Answer
  refused_with : ℕ → Answer
  answered : Sockaddr → Answer

-- `int((addr.Port&0xff)<<8 | addr.Port>>8)` of 16 bits.
abbrev pub swapped : ℕ → ℕ
swapped port = port % 256 * 256 + port / 256

-- `originalDst`; 2 is AF_INET.
unfoldable pub original_dst : Answer → Option Bytes
unfolding ipv4_string
original_dst no_socket = none
original_dst (refused_with errno) = none
original_dst (answered a) =
    let ip =
      ipv4_string (byte_at a.addr 0) (byte_at a.addr 1) (byte_at a.addr 2) (byte_at a.addr 3) in
    if a.family == 2 then some (join_host_port ip (itoa (swapped a.port))) else none

-- A control message of a datagram: its level, its type and its data.
pub record ControlMessage : Type 0 where
  pub level : ℕ
  pub kind : ℕ
  pub payload : Bytes

-- `parseOrigDstUDP` on the messages that `ParseSocketControlMessage` finds; 0 is SOL_IP.
unfoldable pub parse_orig_dst_udp : List ControlMessage → Option (Bytes × ℕ)
parse_orig_dst_udp [] = none
parse_orig_dst_udp (m ∷ ms) =
    let d = byte_at m.payload in
    let rest = parse_orig_dst_udp ms in
    if m.level == 0 && m.kind == 20 && leb 8 (length m.payload)
    then some (ipv4 (d 4) (d 5) (d 6) (d 7), d 2 * 256 + d 3)
    else rest

abbrev pub unsigned_part : Bytes → Bytes
unsigned_part [] = []
unsigned_part (c ∷ s) = if c == b'-' || c == b'+' then s else c ∷ s

-- The number that `strconv.Atoi` returns beside an error: 0, or the limit that was passed.
failed_value : Bytes → ℤ
failed_value s =
    let digits = unsigned_part s in
    if is_empty digits || not (all is_digit digits)
    then pos 0
    else if has_prefix s (codes "-")
    then negsuc (2 ^ 63 - 1)
    else pos (2 ^ 63 - 1)

or_failed : Option ℤ → Bytes → ℤ
unfolding failed_value
or_failed (some v) s = v
or_failed none s = failed_value s

-- Behind `net.ParseIP` of the host.
blocked_ip : Config → Bytes → Option Bytes → Bool
unfolding or_failed
blocked_ip cfg p none = false
blocked_ip cfg p (some ip) =
    let port = or_failed (atoi p) p in
    if int_eq port cfg.api.port || int_eq port cfg.local_proxy.socks_port
    then true
    else is_loopback ip || (is_unspecified ip || is_multicast ip)

blocked_pair : Config → Option (Bytes × Bytes) → Bool
unfolding blocked_ip
blocked_pair cfg none = true
blocked_pair cfg (some (h, p)) = blocked_ip cfg p (parse_ip h)

-- `isLocalOrBlockedTarget`.
unfoldable pub is_local_or_blocked_target : Bytes → Config → Bool
unfolding blocked_pair split_host_port
is_local_or_blocked_target target cfg = blocked_pair cfg (split_host_port target)

-- What the handler leaves: the target that it dialled, the marked clients, and the stream that
-- `pipeBoth` copies.
pub record Handled : Type 0 where
  pub dialled : Option Bytes
  pub dead : List ℕ
  pub piped : Option ℕ

abbrev pub dropped : List ℕ → Handled
dropped dead = record { dialled = none; dead = dead; piped = none }

-- Behind `dialStreamWithRetry`; `current` is the client that the loop holds by then.
opened : Bytes → ℕ → Option ℕ → List ℕ → Res Bytes ℕ → Handled
opened target client current dead (err e) = record {
  dialled = some target;
  dead = mark_if_death e client dead;
  piped = none;
}
opened target client none dead (ok remote) = record {
  dialled = some target;
  dead = dead;
  piped = none;
}
opened target client (some _) dead (ok remote) = record {
  dialled = some target;
  dead = dead;
  piped = some remote;
}

dial_target : Bytes → List ℕ → Option ℕ → Attempt → Option ℕ → Handled
unfolding opened
dial_target target dead none a current = dropped dead
dial_target target dead (some client) a current =
    let o = dial_stream_with_retry dead client a in
    let handled = opened target client current o.dead o.stream in
    if is_usable (some client) dead then handled else dropped dead

aimed_at : Config → List ℕ → Option ℕ → Attempt → Option ℕ → Option Bytes → Handled
unfolding dial_target is_local_or_blocked_target
aimed_at cfg dead held a current none = dropped dead
aimed_at cfg dead held a current (some target) =
    let handled = dial_target target dead held a current in
    if is_local_or_blocked_target target cfg then dropped dead else handled

-- `tproxyDst`, and `originalDst` where that fails.
unfoldable pub target_of : LocalAddr → Answer → Option Bytes
unfolding tproxy_dst original_dst
target_of local answer = first (tproxy_dst local)
  where
    first : Option Bytes → Option Bytes
    first none = original_dst answer
    first (some target) = some target

-- `handleTransparentClient` on a connection that may not be TCP; `held` is what `curClient()` gives
-- before the dial, and `current` after it.
unfoldable pub handle_transparent_client :
    Config → Bool → LocalAddr → Answer → List ℕ → Option ℕ → Attempt → Option ℕ → Handled
unfolding aimed_at target_of
handle_transparent_client cfg false local answer dead held a current = dropped dead
handle_transparent_client cfg true local answer dead held a current =
    aimed_at cfg dead held a current (target_of local answer)
