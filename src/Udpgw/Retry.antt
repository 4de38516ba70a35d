-- ===== src/Udpgw/Retry.antt =====
-- When the tunnel dials: `dial` and the window of 30 seconds after a failure.
use sshcustom_vpnchain.Base.{ℕ, ◌+◌, ◌≤◌, ◌<◌, ◌≡◌, ◌⊎◌, Bool, true, false, some, arith, Bytes}
use sshcustom_vpnchain.Udpgw.{
  Tunnel, Surroundings, dial, reconnected, retry_later, dial_failed, send, written, dropped,
  pack_udpgw, is_open, retry_window,
}

-- After a dial that failed, no dial is tried for 30 seconds, whatever the client does in that
-- time: `dial` refuses and leaves the tunnel as it is, and `Send` drops the datagram in silence.
pub dial_failed-quiet :
    (t : Tunnel) (e later : Surroundings) (ip payload : Bytes) (port : ℕ) (write_ok : Bool)
    → (dial t e).1 ≡ dial_failed
    → later.now < e.now + retry_window
    → (dial (dial t e).0 later ≡ ((dial t e).0, retry_later))
      × (send (dial t e).0 later ip port payload write_ok ≡ ((dial t e).0, dropped))
unfolding dial send
dial_failed-quiet t e later ip payload port write_ok h w = ground arith

-- Once the window is over, and at once where no dial has failed, a usable client that dials gives
-- an open tunnel, and `Send` then writes the frame on the new connection.
pub dial_recovers :
    (t : Tunnel) (e : Surroundings) (conn port : ℕ) (ip payload : Bytes)
    → (t.failed_once ≡ false) ⊎ (t.last_dial_try + retry_window ≤ e.now)
    → is_open t ≡ false
    → e.client_usable ≡ true
    → e.dialled ≡ some conn
    → ((dial t e).1 ≡ reconnected)
      × ((dial t e).0.conn ≡ some conn)
      × (is_open (dial t e).0 ≡ true)
      × ((dial t e).0.failed_once ≡ false)
      × ((send t e ip port payload true).1 ≡ written (pack_udpgw ip port payload))
unfolding dial send
dial_recovers t e conn port ip payload window shut usable dials = ground arith

-- A frame is written only on a connection that the tunnel holds open after `dial`, and the frame
-- is the packed datagram; nothing that `Send` does touches the response channels.
pub send_written :
    (t : Tunnel) (e : Surroundings) (ip payload frame : Bytes) (port : ℕ) (write_ok : Bool)
    → (send t e ip port payload write_ok).1 ≡ written frame
    → (frame ≡ pack_udpgw ip port payload)
      × (write_ok ≡ true)
      × (is_open (send t e ip port payload write_ok).0 ≡ true)
      × ((send t e ip port payload write_ok).0.resp_ch ≡ t.resp_ch)
unfolding dial send
send_written t e ip payload frame port write_ok h = ground arith
