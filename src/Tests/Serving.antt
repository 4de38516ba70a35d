-- ===== src/Tests/Serving.antt =====
-- Examples for the servers, the transparent connections and the keepalive.
use sshcustom_vpnchain.Base.{◌≡◌, refl, true, false, none, some, List, [], ◌∷◌, arith}
use sshcustom_vpnchain.Base.Res.{ok}
use sshcustom_vpnchain.Engine.Streams.{Attempt}
use sshcustom_vpnchain.Engine.Transparent.{
  LocalAddr, tcp_address, Answer, answered, handle_transparent_client, is_local_or_blocked_target,
  parse_orig_dst_udp,
}
use sshcustom_vpnchain.Engine.Transparent.Blocked.{
  endpoint, sockaddr_in, is_local_or_blocked_target-endpoint,
}
use sshcustom_vpnchain.Engine.Transparent.Dropped.{Closed, handle_transparent_client-Closed}
use sshcustom_vpnchain.Engine.Serving.{
  Accept, connection, accept_error, serve_socks, serve_transparent,
}
use sshcustom_vpnchain.Engine.Serving.Handed.{serving-until}
use sshcustom_vpnchain.Engine.KeepAlive.{keep_alive, is_marked, keep_alive-two_misses}
use sshcustom_vpnchain.Engine.KeepAlive
use sshcustom_vpnchain.Net.Ip.{ipv4}
use sshcustom_vpnchain.Tests.Data.{a_config, a_state}

abbrev passing_error : List Accept
passing_error =
    connection 3 ∷ accept_error false ∷ connection 4 ∷ accept_error true ∷ connection 5 ∷ []

serving-until_example :
    ((serve_transparent a_config false none a_state passing_error).handed ≡ 3 ∷ 4 ∷ [])
    × ((serve_transparent a_config false none a_state passing_error).state.transparent_running
        ≡ false)
    × ((serve_socks a_config none a_state passing_error).handed ≡ 3 ∷ [])
    × ((serve_socks a_config none a_state passing_error).state.socks_running ≡ false)
serving-until_example = serving-until a_config false a_state passing_error

abbrev works : Attempt
works = record { first_dial = ok 9; next_client = some 4; second_dial = ok 9 }

-- Redirected from port 10810 of this host, on the way to 93.184.216.34:443.
abbrev redirected : Answer
redirected = answered (sockaddr_in 93 184 216 34 443)

abbrev here : LocalAddr
here = tcp_address (127 ∷ 0 ∷ 0 ∷ 1 ∷ []) 10810

handle_transparent_client-Closed_example :
    Closed a_config here redirected []
      (some 4)
      works
      (handle_transparent_client a_config true here redirected [] (some 4) works (some 4))
handle_transparent_client-Closed_example =
    handle_transparent_client-Closed a_config true here redirected [] (some 4) works (some 4)

is_local_or_blocked_target-endpoint_example :
    is_local_or_blocked_target (endpoint 93 184 216 34 443) a_config ≡ false
is_local_or_blocked_target-endpoint_example =
    is_local_or_blocked_target-endpoint a_config 93 184 216 34 443 (omega arith) (omega arith)
      (omega arith) (omega arith) (omega arith)

keep_alive-two_misses_example :
    is_marked (
      keep_alive 0 (
        KeepAlive.timed_out ∷ KeepAlive.answered ∷ KeepAlive.send_failed ∷ KeepAlive.timed_out
        ∷ []))
    ≡ true
keep_alive-two_misses_example =
    keep_alive-two_misses
      (KeepAlive.timed_out ∷ KeepAlive.answered ∷ KeepAlive.send_failed ∷ KeepAlive.timed_out ∷ [])

parse_orig_dst_udp_test :
    (parse_orig_dst_udp (
        record { level = 0; kind = 8; payload = [] }
        ∷ record { level = 0; kind = 20; payload = 2 ∷ 0 ∷ 0 ∷ 53 ∷ 8 ∷ 8 ∷ 4 ∷ 4 ∷ [] }
        ∷ [])
      ≡ some (ipv4 8 8 4 4, 53))
    × (parse_orig_dst_udp (record { level = 0; kind = 20; payload = 2 ∷ 0 ∷ 0 ∷ [] } ∷ []) ≡ none)
unfolding parse_orig_dst_udp
parse_orig_dst_udp_test = (refl, refl)
