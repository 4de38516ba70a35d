-- ===== src/Udpgw/Relay/Routing.antt =====
-- Where the tunnel's read loop puts a response: only into a channel that a captured datagram's
-- source named.
use sshcustom_vpnchain.Base.{
  ℕ, ◌≡◌, refl, Bool, false, Option, none, some, List, [], ◌∷◌, ◌++◌, arith, Bytes, str_eq,
  str_eq_iff, str_eq_refl,
}
use sshcustom_vpnchain.Base.Res.{Res, ok, err}
use sshcustom_vpnchain.Base.Assoc.{find, find-put, find-remove_if}
use sshcustom_vpnchain.Net.Conn.{Fault}
use sshcustom_vpnchain.Udpgw.{
  Tunnel, Surroundings, Datagram, dial, send, response_chan, release_response, read_loop_round,
  deliver, offer, response_key,
}
use sshcustom_vpnchain.Udpgw.Relay.{
  Relay, Captured, Event, captured, flow_over, frame_read, has_key, open_flow, on_datagram,
  expire_flow, relay_step, relay_run, new_relay, sources,
}
use sshcustom_vpnchain.Udpgw.Relay.{reply_taken, take_reply, take_waiting}

-- Every key of the tunnel's response channels is one of the given texts.
abbrev Within : List Bytes → Tunnel → Type 0
Within ks t = (k : Bytes) → has_key k ks ≡ false → find k t.resp_ch ≡ none

pub send-resp_ch :
    (t : Tunnel) (e : Surroundings) (ip payload : Bytes) (port : ℕ) (write_ok : Bool)
    → (send t e ip port payload write_ok).0.resp_ch ≡ t.resp_ch
unfolding send dial
send-resp_ch t e ip payload port write_ok = ground arith

captured-Within :
    (ks : List Bytes) (r : Relay) (e : Surroundings) (d : Captured) (write_ok : Bool)
    → Within ks r.tunnel
    → Within (d.source ∷ ks) (on_datagram r e d write_ok).0.tunnel
unfolding on_datagram response_chan
captured-Within ks r e d write_ok h k new =
    let sent =
      send-resp_ch (open_flow r d.source).tunnel e d.destination d.payload d.port write_ok in
    rw sent (ground (arith, h k, find-put {V = List Bytes} d.source k [] r.tunnel.resp_ch))

offer-find :
    (t : Tunnel) (key payload k : Bytes) (o : Option (List Bytes))
    → find key t.resp_ch ≡ o
    → find k t.resp_ch ≡ none
    → find k (offer t key payload o).resp_ch ≡ none
unfolding offer
offer-find t key payload k none at new = new
offer-find t key payload k (some waiting) at new =
    ground (arith, find-put key k (waiting ++ payload ∷ []) t.resp_ch, str_eq_iff key k)

frame-Within :
    (ks : List Bytes) (t : Tunnel) (f : Res Fault Datagram)
    → Within ks t
    → Within ks (read_loop_round t f).0
unfolding read_loop_round deliver
frame-Within ks t (err why) h k new = ground (arith, h k new)
frame-Within ks t (ok d) h k new = ground (
  arith,
  h k new,
  offer-find t (response_key d) d.payload k (find (response_key d) t.resp_ch) refl (h k new),
)

taken-find :
    (t : Tunnel) (key k : Bytes) (o : Option (List Bytes))
    → find key t.resp_ch ≡ o
    → find k t.resp_ch ≡ none
    → find k (take_waiting t key o).resp_ch ≡ none
unfolding take_waiting
taken-find t key k none at new = new
taken-find t key k (some []) at new = new
taken-find t key k (some (payload ∷ waiting)) at new =
    ground (arith, find-put key k waiting t.resp_ch, str_eq_iff key k)

step-Within :
    (ks : List Bytes) (r : Relay) (v : Event)
    → Within ks r.tunnel
    → Within (sources (v ∷ []) ++ ks) (relay_step r v).tunnel
unfolding relay_step
step-Within ks r (captured e d write_ok) h = captured-Within ks r e d write_ok h
step-Within ks r (flow_over key) h = λ k new.
    unfold expire_flow release_response in
    ground (arith, h k new, find-remove_if (λ j. str_eq j key) k r.tunnel.resp_ch)
step-Within ks r (reply_taken key) h = λ k new.
    unfold take_reply in taken-find r.tunnel key k (find key r.tunnel.resp_ch) refl (h k new)
step-Within ks r (frame_read f) h = frame-Within ks r.tunnel f h

-- The sources of a run, the latest first.
abbrev pub heard : List Bytes → List Event → List Bytes
heard ks [] = ks
heard ks (v ∷ vs) = heard (sources (v ∷ []) ++ ks) vs

run-Within :
    (ks : List Bytes) (r : Relay) (vs : List Event)
    → Within ks r.tunnel
    → Within (heard ks vs) (relay_run r vs).tunnel
unfolding relay_run
run-Within ks r [] h = h
run-Within ks r (v ∷ vs) h =
    run-Within (sources (v ∷ []) ++ ks) (relay_step r v) vs (step-Within ks r v h)

-- A response is lost unless its own address names a client. After any run, a frame whose key (the
-- address of the server that it comes from) is not the source of a captured datagram changes
-- nothing: it reaches no channel, whatever datagram it answers.
pub deliver_foreign :
    (vs : List Event) (d : Datagram)
    → has_key (response_key d) (heard [] vs) ≡ false
    → deliver (relay_run new_relay vs).tunnel d ≡ (relay_run new_relay vs).tunnel
unfolding deliver
deliver_foreign vs d foreign =
    rw (run-Within [] new_relay vs (λ k new. unfold find in refl) (response_key d) foreign)

deliver-find :
    (t : Tunnel) (d : Datagram) (key : Bytes)
    → response_key d ≡ key
    → find key t.resp_ch ≡ some []
    → find key (deliver t d).resp_ch ≡ some (d.payload ∷ [])
unfolding deliver offer
deliver-find t d key e at =
    rw e (rw at (ground (arith, find-put key key (d.payload ∷ []) t.resp_ch, str_eq_refl key)))

-- A frame that is addressed to the client itself arrives: once a datagram of a new source has been
-- taken, a response under that source's key waits in its channel, alone, whether or not the
-- datagram could be sent.
pub deliver-on_datagram :
    (r : Relay) (e : Surroundings) (d : Captured) (answer : Datagram) (write_ok : Bool)
    → has_key d.source r.flows ≡ false
    → response_key answer ≡ d.source
    → find d.source (deliver (on_datagram r e d write_ok).0.tunnel answer).resp_ch
      ≡ some (answer.payload ∷ [])
unfolding on_datagram response_chan
deliver-on_datagram r e d answer write_ok new key =
    let sent =
      send-resp_ch (open_flow r d.source).tunnel e d.destination d.payload d.port write_ok in
    let empty : find d.source (open_flow r d.source).tunnel.resp_ch ≡ some [] = ground (
      arith,
      find-put {V = List Bytes} d.source d.source [] r.tunnel.resp_ch,
      str_eq_refl d.source,
    ) in
    deliver-find (on_datagram r e d write_ok).0.tunnel answer d.source key (rw sent empty)
