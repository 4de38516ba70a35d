-- ===== src/Engine/Serving/Listeners.antt =====
-- cmd/sshcustomd/engine.go: `startListeners`, the loops of `serveTransparentUDP` and
-- `dnsForwardLoop` over how a receive ends, and `measureLatency`. A datagram is a number; what is
-- handed to the relay is the list `handed`.
use sshcustom_vpnchain.Base.{
  ℕ, ◌-◌, ◌/◌, ◌≡◌, refl, ap, inl, inr, Bool, true, false, not, ◌&&◌, Option, none, some, List, [],
  ◌∷◌, ◌++◌, arith, ltb, if◌then◌else◌, Bool-cases, length, ℤ, pos, nonpositive, Bytes, codes,
}
use sshcustom_vpnchain.Base.Res.{Res, ok, err}
use sshcustom_vpnchain.Config.Data.{Config}
use sshcustom_vpnchain.Engine.State.{State}
use sshcustom_vpnchain.Engine.Serving.{Server, not_listening, handing}

-- The servers of a tunnel.
pub data Listener : Type 0 where
  socks_listener transparent_listener dns_listener udp_listener : Listener

-- `startListeners`: the servers that it starts, in order.
unfoldable pub start_listeners : Config → List Listener
start_listeners cfg =
    (if cfg.local_proxy.socks_enabled then socks_listener ∷ [] else [])
    ++ (if cfg.transparent_proxy.enabled then transparent_listener ∷ [] else [])
    ++ (dns_listener ∷ (if cfg.udp_proxy.enabled then udp_listener ∷ [] else []))

-- How a receive ends: with a datagram, or with an error, while the context is done or not, that is
-- a timeout or not.
pub data Received : Type 0 where
  datagram : ℕ → Received
  receive_error : Bool → Bool → Received

unfoldable pub serve_udp_loop : State → List Received → Server
serve_udp_loop st [] = record { state = st; handed = []; returned = false }
serve_udp_loop st (datagram d ∷ rest) = handing d (serve_udp_loop st rest)
serve_udp_loop st (receive_error ctx_done is_timeout ∷ rest) =
    let more = serve_udp_loop st rest in
    if not ctx_done && is_timeout
    then more
    else record { state = record st { udp_proxy_running = false }; handed = []; returned = true }

-- `serveTransparentUDP`; the option is the error of listening.
unfoldable pub serve_transparent_udp : Option Bytes → State → List Received → Server
unfolding serve_udp_loop
serve_transparent_udp (some e) st receives =
    not_listening (record st {
      udp_proxy_running = false;
      last_error = codes "UDP TPROXY listen failed: " ++ e;
    })
serve_transparent_udp none st receives =
    serve_udp_loop (record st { udp_proxy_running = true }) receives

-- How a read of the DNS listener ends: with a datagram, or with an error.
pub data DnsReceived : Type 0 where
  dns_datagram : Bytes → DnsReceived
  dns_error : Bool → Bool → Bytes → DnsReceived

-- The loop of `dnsForwardLoop`: the queries that it forwards, and what it returns once it does:
-- `none` for the end of its context, or an error.
unfoldable pub dns_forward_loop : List DnsReceived → List Bytes × Option (Option Bytes)
dns_forward_loop [] = ([], none)
dns_forward_loop (dns_datagram query ∷ rest) =
    let more = dns_forward_loop rest in
    if ltb (length query) 12 then more else (query ∷ more.0, more.1)
dns_forward_loop (dns_error ctx_done is_timeout e ∷ rest) =
    let more = dns_forward_loop rest in
    if ctx_done
    then ([], some none)
    else if is_timeout
    then more
    else ([], some (some (codes "read udp: " ++ e)))

-- The port of the gateway at the far end.
abbrev pub udpgw_port_of : Config → ℤ
udpgw_port_of cfg =
    if nonpositive cfg.udp_proxy.udpgw_port then pos 7300 else cfg.udp_proxy.udpgw_port

latency_of : ℕ → ℕ → Option Bytes → Res Bytes ℕ
latency_of began over none = ok ((over - began) / 1000000)
latency_of began over (some e) = err e

-- `measureLatency`, with the error of the dial and the times in nanoseconds: milliseconds.
unfoldable pub measure_latency : Bool → ℕ → ℕ → Option Bytes → Res Bytes ℕ
unfolding latency_of
measure_latency has_client began over e =
    if has_client then latency_of began over e else err (codes "tunnel not connected")

-- The datagrams that come before an error that ends the loop.
abbrev pub until_error : List Received → List ℕ
until_error [] = []
until_error (datagram d ∷ rest) = d ∷ until_error rest
until_error (receive_error ctx_done is_timeout ∷ rest) =
    if not ctx_done && is_timeout then until_error rest else []

abbrev pub has_ended : List Received → Bool
has_ended [] = false
has_ended (datagram d ∷ rest) = has_ended rest
has_ended (receive_error ctx_done is_timeout ∷ rest) =
    if not ctx_done && is_timeout then has_ended rest else true

loop-until_error :
    (st : State) (receives : List Received)
    → ((serve_udp_loop st receives).handed ≡ until_error receives)
      × ((serve_udp_loop st receives).returned ≡ has_ended receives)
      × ((serve_udp_loop st receives).state.udp_proxy_running
          ≡ st.udp_proxy_running && not (has_ended receives))
unfolding serve_udp_loop
loop-until_error st [] = (refl, refl, ground arith)
loop-until_error st (datagram d ∷ rest) =
    let h = loop-until_error st rest in (ap (◌∷◌ d) h.0, h.1, h.2)
loop-until_error st (receive_error ctx_done is_timeout ∷ rest) =
    elim (Bool-cases (not ctx_done && is_timeout)) [
      | inl passing ↦ rw passing (loop-until_error st rest)
      | inr ends ↦ rw ends (refl, refl, ground arith)
    ]

-- The UDP server takes every datagram, in order, up to the first error that is no timeout, or any error
-- behind the end of its context; it has then returned, and its state says so.
pub serve_transparent_udp-until_error :
    (st : State) (receives : List Received)
    → let s = serve_transparent_udp none st receives in
      (s.handed ≡ until_error receives)
      × (s.returned ≡ has_ended receives)
      × (s.state.udp_proxy_running ≡ not (has_ended receives))
unfolding serve_transparent_udp
serve_transparent_udp-until_error st receives =
    loop-until_error (record st { udp_proxy_running = true }) receives
