-- ===== src/Tests/Socks.antt =====
-- Examples for the SOCKS5 handshake, on both sides.
use sshcustom_vpnchain.Base.{◌≡◌, refl, false, [], ◌∷◌, ◌++◌, arith, Bytes, codes}
use sshcustom_vpnchain.Base.Decimal.{itoa}
use sshcustom_vpnchain.Base.Res.{ok}
use sshcustom_vpnchain.Net.Conn.{Conn}
use sshcustom_vpnchain.Net.HostPort.{join_host_port}
use sshcustom_vpnchain.Socks.{socks5_handshake, socks5_reply_bytes, socks_connect}
use sshcustom_vpnchain.Socks.Request.{Request, encode, target, IsRequest, domain}
use sshcustom_vpnchain.Socks.Server.{socks5_handshake-encode}
use sshcustom_vpnchain.Socks.Sound.{socks5_handshake_sound}
use sshcustom_vpnchain.Socks.Client.{dialogue}

-- A CONNECT to a.io:443.
abbrev pub asked : Request
asked = record {
  methods = 0 ∷ 2 ∷ [];
  reserved = 0;
  address = domain (codes "a.io");
  port_high = 1;
  port_low = 187;
}

asked-IsRequest : IsRequest asked
asked-IsRequest = record {
  some_method = omega arith;
  few_methods = omega arith;
  address_fits = omega arith;
}

abbrev pub peer : Bytes → Conn
peer input = record { input = input; output = []; broken = false }

-- The connection after the handshake.
abbrev pub greeted : Conn
greeted = record { input = 7 ∷ []; output = 5 ∷ 0 ∷ []; broken = false }

socks5_handshake-encode_example :
    socks5_handshake (peer (encode asked (7 ∷ [])))
    ≡ (ok (target asked), record { input = 7 ∷ []; output = 5 ∷ 0 ∷ []; broken = false })
socks5_handshake-encode_example =
    socks5_handshake-encode asked (peer (encode asked (7 ∷ []))) (7 ∷ []) asked-IsRequest refl refl

pub greeted_run :
    socks5_handshake (peer (encode asked (7 ∷ [])))
    ≡ (ok (target asked), record { input = 7 ∷ []; output = 5 ∷ 0 ∷ []; broken = false })
greeted_run =
    socks5_handshake-encode asked (peer (encode asked (7 ∷ []))) (7 ∷ []) asked-IsRequest refl refl

socks5_handshake_sound_example :
    (r : Request) × IsRequest r
    × (target r ≡ target asked)
    × (encode asked (7 ∷ []) ≡ encode r (7 ∷ []))
    × (false ≡ false)
    × (greeted ≡ greeted)
socks5_handshake_sound_example =
    socks5_handshake_sound (peer (encode asked (7 ∷ [])))
      (record { input = 7 ∷ []; output = 5 ∷ 0 ∷ []; broken = false }) (target asked) greeted_run

abbrev answer : Conn
answer = peer (socks5_reply_bytes 5)

abbrev a_client : Conn
a_client = peer (5 ∷ 0 ∷ (socks5_reply_bytes 0 ++ []))

abbrev a_server : Conn
a_server = peer (socks_connect (codes "a.io") 443 a_client).1.output

dialogue_example :
    ((socks_connect (codes "a.io") 443 a_client).0 ≡ ok tt)
    × (socks5_handshake a_server ≡ (
      ok (join_host_port (codes "a.io") (itoa 443)),
      record a_server { input = []; output = 5 ∷ 0 ∷ [] },
    ))
dialogue_example =
    dialogue a_client a_server (codes "a.io") [] 443 (omega arith) (omega arith) (omega arith) refl
      refl refl refl refl
