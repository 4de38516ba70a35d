-- ===== src/Tests/Streams.antt =====
-- Examples for streams and forwarded queries.
use sshcustom_vpnchain.Base.{ℕ, ◌≡◌, refl, Option, none, some, List, [], ◌∷◌, arith, Bytes, codes}
use sshcustom_vpnchain.Base.Res.{ok, err}
use sshcustom_vpnchain.Socks.Request.{encode, target}
use sshcustom_vpnchain.Engine.Streams.{Attempt, dial_stream_with_retry, handle_socks_client}
use sshcustom_vpnchain.Engine.Streams.Retries.{dial_stream_with_retry-policy, Follows}
use sshcustom_vpnchain.Engine.Streams.Closed.{handle_socks_client-Fair, Fair}
use sshcustom_vpnchain.Engine.DnsForward.{forward_datagram, dns_frame, awaited_client}
use sshcustom_vpnchain.Engine.DnsForward.Answers.{forward_datagram-answer}
use sshcustom_vpnchain.Tests.Socks.{asked, peer, greeted, greeted_run}
use sshcustom_vpnchain.Base.{if◌then◌else◌, str_eq, leb, length, false}
use sshcustom_vpnchain.Engine.DnsForward.{Upstream, ReplySocket}

-- The server behind the tunnel was slow, and a second dial works.
abbrev slow : Attempt
slow = record {
  first_dial = err (codes "ssh: rejected: connect failed (Connection timed out)");
  next_client = some 4;
  second_dial = ok 9;
}

dial_stream_with_retry-policy_example : Follows [] 4 slow 4 (dial_stream_with_retry [] 4 slow)
dial_stream_with_retry-policy_example = dial_stream_with_retry-policy [] 4 4 slow refl

handle_socks_client-Fair_example :
    Fair greeted []
      (some 4)
      slow
      (handle_socks_client (peer (encode asked (7 ∷ []))) [] (some 4) slow (some 4))
handle_socks_client-Fair_example =
    handle_socks_client-Fair (peer (encode asked (7 ∷ []))) greeted (target asked) [] (some 4) slow
      (some 4) greeted_run

abbrev a_query : Bytes
a_query = 0 ∷ 7 ∷ 1 ∷ 0 ∷ 0 ∷ 1 ∷ 0 ∷ 0 ∷ 0 ∷ 0 ∷ 0 ∷ 0 ∷ []

abbrev a_response : Bytes
a_response = 0 ∷ 7 ∷ 129 ∷ 128 ∷ 0 ∷ 1 ∷ 0 ∷ 0 ∷ 0 ∷ 0 ∷ 0 ∷ 0 ∷ []

-- An upstream that answers this query, framed, and nothing else.
abbrev upstream : Upstream
upstream = record {
  broken = false;
  responds = λ sent. if str_eq sent (dns_frame a_query) then dns_frame a_response else [];
}

abbrev listener : ReplySocket
listener = record { takes = λ resp. leb (length resp) 65507 }

-- The client is back at the second look.
abbrev looks : List (Option ℕ)
looks = none ∷ some 4 ∷ []

forward_datagram-answer_example :
    forward_datagram listener a_query looks (λ client. some upstream)
    ≡ (if listener.takes a_response then some a_response else none)
unfolding awaited_client
forward_datagram-answer_example =
    forward_datagram-answer listener a_query a_response [] looks (λ client. some upstream) 4
      upstream (omega arith) refl refl (omega arith) (omega arith) refl refl
