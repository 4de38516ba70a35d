-- ===== src/Tests/Udpgw.antt =====
-- Examples for the UDP gateway.
use sshcustom_vpnchain.Base.{
  ◌≤◌, ◌<◌, ◌≡◌, refl, true, false, none, some, [], ◌∷◌, ◌++◌, arith, All, Bytes, codes,
}
use sshcustom_vpnchain.Base.Res.{ok}
use sshcustom_vpnchain.Net.Conn.{Conn}
use sshcustom_vpnchain.Net.Ip.{to4}
use sshcustom_vpnchain.Udpgw.{
  pack_udpgw, read_udpgw_frame, Datagram, Surroundings, deliver, udpgw_max_payload,
}
use sshcustom_vpnchain.Udpgw.Frames.{read_udpgw_frame-pack, read_udpgw_frame_sound, widened}
use sshcustom_vpnchain.Udpgw.Relay.{Captured, captured, relay_run, new_relay}
use sshcustom_vpnchain.Udpgw.Relay.Routing.{deliver_foreign}
use sshcustom_vpnchain.Net.Ip.{ipv6_string}
use sshcustom_vpnchain.Base.Decimal.{itoa}

abbrev resolver : Bytes
resolver = 8 ∷ 8 ∷ 8 ∷ 8 ∷ []

abbrev stream : Conn
stream = record {
  input = pack_udpgw resolver 53 (1 ∷ 2 ∷ []) ++ (9 ∷ []);
  output = [];
  broken = false;
}

abbrev packed : Datagram
packed = record { ip = widened resolver; port = 53; payload = 1 ∷ 2 ∷ [] }

-- The stream after the frame.
abbrev taken : Conn
taken = record { input = 9 ∷ []; output = []; broken = false }

read_udpgw_frame-pack_example :
    read_udpgw_frame stream ≡ (ok packed, record { input = 9 ∷ []; output = []; broken = false })
unfolding to4
read_udpgw_frame-pack_example =
    read_udpgw_frame-pack stream resolver resolver (1 ∷ 2 ∷ []) (9 ∷ []) 53 refl (omega arith)
      (omega arith) refl

frame_run :
    read_udpgw_frame stream ≡ (ok packed, record { input = 9 ∷ []; output = []; broken = false })
unfolding to4
frame_run =
    read_udpgw_frame-pack stream resolver resolver (1 ∷ 2 ∷ []) (9 ∷ []) 53 refl (omega arith)
      (omega arith) refl

stream-All : All (λ b. b < 256) stream.input
unfolding pack_udpgw to4
stream-All = ground arith

read_udpgw_frame_sound_example :
    (stream.input ≡ pack_udpgw (widened resolver) 53 (1 ∷ 2 ∷ []) ++ (9 ∷ []))
    × (2 ≤ udpgw_max_payload)
    × (taken ≡ taken)
read_udpgw_frame_sound_example =
    read_udpgw_frame_sound stream (record { input = 9 ∷ []; output = []; broken = false }) packed
      stream-All frame_run

-- A client that is up, with a gateway that refuses the connection, and one that takes it.
abbrev refusing : Surroundings
refusing = record { now = 100; client_usable = true; dialled = none }

abbrev accepting : Surroundings
accepting = record { now = 200; client_usable = true; dialled = some 3 }

-- A phone behind the hotspot asks a resolver.
abbrev query : Captured
query = record {
  source = codes "10.0.0.2:4000";
  destination = resolver;
  port = 53;
  payload = 1 ∷ 2 ∷ [];
}

abbrev from_resolver : Datagram
from_resolver = record { ip = widened resolver; port = 53; payload = 3 ∷ [] }

deliver_foreign_example :
    deliver (relay_run new_relay (captured accepting query true ∷ [])).tunnel from_resolver
    ≡ (relay_run new_relay (captured accepting query true ∷ [])).tunnel
unfolding ipv6_string itoa
deliver_foreign_example = deliver_foreign (captured accepting query true ∷ []) from_resolver refl
