-- ===== src/Tests/Dial.antt =====
-- Examples for the lists of addresses, the dials over them, and the probe of a transport.
use sshcustom_vpnchain.Base.{◌≡◌, refl, true, none, some, List, [], ◌∷◌, pos, Bytes, codes, str_eq}
use sshcustom_vpnchain.Base.Res.{err, ◌>>=◌}
use sshcustom_vpnchain.Base.Decimal.{itoa_int}
use sshcustom_vpnchain.Dnsx.{Network, resolve_host}
use sshcustom_vpnchain.Dnsx.Ips.{
  rotate_ips, extract_ipv4s, sanitize_ipv4_list, canonical_ipv4, only_ipv4,
}
use sshcustom_vpnchain.Transport.Dial.{World, dial_each, dial_tcp_resolved}
use sshcustom_vpnchain.Transport.Dial.Order.{candidates, dial_tcp_resolved-dial_each}
use sshcustom_vpnchain.Transport.Open.{OpenError, open_prepared_ssh_conn}
use sshcustom_vpnchain.Transport.Probe.{
  shown, attempt_transport, attempt_transport-open_prepared_ssh_conn, attempt_transport_unread,
}
use sshcustom_vpnchain.Tests.Data.{a_config}
use sshcustom_vpnchain.Tests.Transport.{with_payload, in_pieces}
use sshcustom_vpnchain.Net.HostPort.{join_host_port}
use sshcustom_vpnchain.Base.Text.{trim}
use sshcustom_vpnchain.Net.IpClass.{ip_string}
use sshcustom_vpnchain.Net.Ip.{to4, ipv6_string}
use sshcustom_vpnchain.Net.ParseIp.{parse_ip}
use sshcustom_vpnchain.Tests.Data.{home, home_ssh, no_payload}
use sshcustom_vpnchain.Profile.Data.{Profile}
use sshcustom_vpnchain.Profile.Transport.{build_transport}
use sshcustom_vpnchain.Dnsx.{configured_servers}
use sshcustom_vpnchain.Base.Assoc.{find}
use sshcustom_vpnchain.Base.Decimal.{itoa}

abbrev edges : List Bytes
edges = codes "104.16.0.1" ∷ codes "104.16.0.2" ∷ codes "104.16.0.3" ∷ []

-- The resolver knows the host's three addresses, and only the last of them can be reached.
abbrev network : Network
network = record {
  now = 5;
  carrier = codes "10.1.1.1:53" ∷ [];
  direct = λ host servers. edges;
  shell = λ host. [];
}

abbrev world : World
world = record {
  up = λ n a. str_eq a (codes "104.16.0.3:443");
  first_lookup = network;
  second_lookup = network;
  first_time = 0;
  second_time = 1;
}

dial_tcp_resolved-dial_each_example :
    ((dial_tcp_resolved world a_config (codes "edge.example") (pos 443) [] []).conn
      ≡ (dial_each world.up 0
          (candidates world a_config (codes "edge.example") (itoa_int (pos 443)) [] [])).reached)
    × ((dial_tcp_resolved world a_config (codes "edge.example") (pos 443) [] []).tried
        ≡ (dial_each world.up 0
            (candidates world a_config (codes "edge.example") (itoa_int (pos 443)) [] [])).tried)
dial_tcp_resolved-dial_each_example =
    dial_tcp_resolved-dial_each world a_config (codes "edge.example") (pos 443) [] []

attempt_transport-open_prepared_ssh_conn_example :
    open_prepared_ssh_conn with_payload in_pieces >>= shown
    ≡ attempt_transport with_payload in_pieces
unfolding build_transport
attempt_transport-open_prepared_ssh_conn_example =
    attempt_transport-open_prepared_ssh_conn with_payload in_pieces refl refl

abbrev unread_response : Profile
unread_response = record home {
  transport =
      build_transport (codes "direct") (record no_payload { enabled = true }) none none home_ssh;
}

attempt_transport_unread_example :
    (e : OpenError) × (attempt_transport unread_response in_pieces ≡ err e)
unfolding build_transport
attempt_transport_unread_example = attempt_transport_unread unread_response in_pieces refl refl

extract_ipv4s_test :
    extract_ipv4s (codes "PING edge (104.16.0.1) 56(84) from 10.0.0.999: 104.16.0.1")
    ≡ codes "104.16.0.1" ∷ []
unfolding extract_ipv4s canonical_ipv4 only_ipv4 parse_ip to4 ip_string ipv6_string itoa
extract_ipv4s_test = refl

sanitize_ipv4_list_test :
    sanitize_ipv4_list
      (codes " 1.2.3.4 " ∷ codes "::ffff:1.2.3.4" ∷ codes "1.2.3" ∷ codes "::1" ∷ [])
    ≡ codes "1.2.3.4" ∷ []
unfolding sanitize_ipv4_list canonical_ipv4 only_ipv4 parse_ip to4 ip_string ipv6_string trim itoa
sanitize_ipv4_list_test = refl

dial_tcp_resolved_test :
    (dial_tcp_resolved world a_config (codes "edge.example") (pos 443) [] []).conn
    ≡ some (codes "104.16.0.3:443")
unfolding dial_tcp_resolved parse_ip resolve_host rotate_ips join_host_port itoa_int find
    configured_servers
dial_tcp_resolved_test = refl
