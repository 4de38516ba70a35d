-- ===== src/Udpgw/Relay.antt =====
-- cmd/sshcustomd/engine.go: `serveTransparentUDP` over the tunnel of udpgw.go. The loop over
-- datagrams, the timer of each flow, the goroutines that wait for replies and the read loop of the
-- tunnel run at once: a run is a list of
-- events, each of which holds the locks while it works.
pub mod Routing
use sshcustom_vpnchain.Base.{ℕ, Bool, not, List, [], ◌∷◌, if◌then◌else◌, keep, any, Bytes, str_eq}
use sshcustom_vpnchain.Base.Res.{Res}
use sshcustom_vpnchain.Net.Conn.{Fault}
use sshcustom_vpnchain.Udpgw.{
  Tunnel, Surroundings, Datagram, SendResult, send, response_chan, release_response,
  read_loop_round, new_tunnel,
}
use sshcustom_vpnchain.Base.{Option, none, some}
use sshcustom_vpnchain.Base.Assoc.{find, put}

-- The tunnel, and the keys of the map `flows` (its channels are those of the tunnel).
pub record Relay : Type 0 where
  pub tunnel : Tunnel
  pub flows : List Bytes

abbrev pub has_key : Bytes → List Bytes → Bool
has_key k ks = any (λ j. str_eq j k) ks

-- A captured datagram: the text of its source, its original destination and its payload.
pub record Captured : Type 0 where
  pub source : Bytes
  pub destination : Bytes
  pub port : ℕ
  pub payload : Bytes

-- `if !exists { ... }`: a channel and an entry for a new source.
unfoldable pub open_flow : Relay → Bytes → Relay
open_flow r key =
    if has_key key r.flows
    then r
    else record { tunnel = response_chan r.tunnel key; flows = key ∷ r.flows }

-- A datagram from the loop: its flow is opened, then it is sent through the tunnel.
unfoldable pub on_datagram : Relay → Surroundings → Captured → Bool → Relay × SendResult
unfolding open_flow
on_datagram r e d write_ok =
    let opened = open_flow r d.source in
    let (t, result) = send opened.tunnel e d.destination d.port d.payload write_ok in
    (record opened { tunnel = t }, result)

-- The timer of a flow.
unfoldable pub expire_flow : Relay → Bytes → Relay
expire_flow r key = record {
  tunnel = release_response r.tunnel key;
  flows = keep (λ k. not (str_eq k key)) r.flows;
}

-- The goroutine of a datagram that was sent receives from the channel of its flow, if something waits
-- there, and writes that to the client.
take_waiting : Tunnel → Bytes → Option (List Bytes) → Tunnel
take_waiting t key none = t
take_waiting t key (some []) = t
take_waiting t key (some (payload ∷ waiting)) = record t { resp_ch = put key waiting t.resp_ch }

unfoldable pub take_reply : Tunnel → Bytes → Tunnel
unfolding take_waiting
take_reply t key = take_waiting t key (find key t.resp_ch)

pub data Event : Type 0 where
  captured : Surroundings → Captured → Bool → Event
  flow_over reply_taken : Bytes → Event
  frame_read : Res Fault Datagram → Event

unfoldable pub relay_step : Relay → Event → Relay
unfolding on_datagram expire_flow take_reply
relay_step r (captured e d write_ok) = (on_datagram r e d write_ok).0
relay_step r (flow_over key) = expire_flow r key
relay_step r (reply_taken key) = record r { tunnel = take_reply r.tunnel key }
relay_step r (frame_read f) = record r { tunnel = (read_loop_round r.tunnel f).0 }

unfoldable pub relay_run : Relay → List Event → Relay
relay_run r [] = r
relay_run r (v ∷ vs) = relay_run (relay_step r v) vs

abbrev pub new_relay : Relay
new_relay = record { tunnel = new_tunnel; flows = [] }

-- The sources of the datagrams that a run captured.
abbrev pub sources : List Event → List Bytes
sources [] = []
sources (captured e d write_ok ∷ vs) = d.source ∷ sources vs
sources (flow_over key ∷ vs) = sources vs
sources (reply_taken key ∷ vs) = sources vs
sources (frame_read f ∷ vs) = sources vs
