-- ===== src/Engine/Streams.antt =====
-- engine.go: how a stream is opened through the SSH client, and the two handlers that open one:
-- `handleSOCKSClient` and `handleTransparentClient`. A client is a number; `dead` lists the clients
-- that are marked as dead. An error is its text. `pipeBoth` is the number of the stream it copies.
pub mod Closed
pub mod Retries
use sshcustom_vpnchain.Base.{
  ℕ, Bool, false, not, Option, none, some, List, [], ◌∷◌, ◌==◌, if◌then◌else◌, any, Bytes, codes,
}
use sshcustom_vpnchain.Base.Text.{contains}
use sshcustom_vpnchain.Base.Res.{Res, ok, err}
use sshcustom_vpnchain.Net.Conn.{Conn, Fault}
use sshcustom_vpnchain.Socks.{socks5_handshake, socks5_reply}

-- `isTransportDeath` of an error that is not nil.
unfoldable pub is_transport_death : Bytes → Bool
is_transport_death s = any (contains s) (
    codes "read tcp"
    ∷ codes "EOF"
    ∷ codes "eof"
    ∷ codes "use of closed network connection"
    ∷ codes "unexpected packet"
    ∷ codes "bad record mac"
    ∷ codes "error decoding message"
    ∷ codes "packet too large"
    ∷ codes "invalid packet length"
    ∷ [])

-- `isStreamRetryable` of an error that is not nil.
unfoldable pub is_stream_retryable : Bytes → Bool
is_stream_retryable s = any (contains s) (
    codes "connect failed"
    ∷ codes "Connection refused"
    ∷ codes "Connection timed out"
    ∷ codes "Temporary failure in name resolution"
    ∷ codes "no route to host"
    ∷ [])

abbrev pub classified : Bytes → List (List Bytes × Bytes) → Bytes
classified s [] = s
classified s ((words, label) ∷ rest) = if any (contains s) words then label else classified s rest

-- `classifyDisconnect`.
unfoldable pub classify_disconnect : Option Bytes → Bytes
classify_disconnect none = codes "clean close"
classify_disconnect (some s) = classified s (
    (codes "EOF" ∷ codes "eof" ∷ [], codes "remote closed (SSH server)")
    ∷ (codes "timeout" ∷ codes "i/o timeout" ∷ [], codes "network timeout")
    ∷ (codes "reset" ∷ codes "broken pipe" ∷ [], codes "network reset")
    ∷ (codes "use of closed network connection" ∷ [], codes "keepalive timeout (connection dead)")
    ∷ (codes "unexpected packet" ∷ codes "bad record mac" ∷ [], codes "transport corruption")
    ∷ [])

abbrev pub is_dead : ℕ → List ℕ → Bool
is_dead client dead = any (λ k. k == client) dead

-- `MarkDead`, which closes the client.
abbrev pub mark_dead : ℕ → List ℕ → List ℕ
mark_dead client dead = client ∷ dead

abbrev pub mark_if_death : Bytes → ℕ → List ℕ → List ℕ
mark_if_death e client dead = if is_transport_death e then mark_dead client dead else dead

-- `cl == nil || cl.IsDead()`.
abbrev pub is_usable : Option ℕ → List ℕ → Bool
is_usable none dead = false
is_usable (some client) dead = not (is_dead client dead)

-- What the dials of one stream meet: how the first `DialTCP` ends, the client that the loop holds
-- after it, and how a second `DialTCP`, on that client, ends.
pub record Attempt : Type 0 where
  pub first_dial : Res Bytes ℕ
  pub next_client : Option ℕ
  pub second_dial : Res Bytes ℕ

-- How a stream was opened: the marked clients, the dials made, and the stream or the error.
pub record Opened : Type 0 where
  pub dead : List ℕ
  pub dials : ℕ
  pub stream : Res Bytes ℕ

second_try : List ℕ → ℕ → Res Bytes ℕ → Opened
second_try dead client (ok remote) = record { dead = dead; dials = 2; stream = ok remote }
second_try dead client (err e) = record {
  dead = mark_if_death e client dead;
  dials = 2;
  stream = err e;
}

retry : List ℕ → Bytes → Option ℕ → Res Bytes ℕ → Opened
unfolding second_try
retry dead e none outcome = record { dead = dead; dials = 1; stream = err e }
retry dead e (some client) outcome =
    let again = second_try dead client outcome in
    if is_dead client dead then record { dead = dead; dials = 1; stream = err e } else again

first_try : List ℕ → ℕ → Attempt → Res Bytes ℕ → Opened
unfolding retry
first_try dead client a (ok remote) = record { dead = dead; dials = 1; stream = ok remote }
first_try dead client a (err e) =
    let again = retry dead e a.next_client a.second_dial in
    if is_transport_death e
    then record { dead = mark_dead client dead; dials = 1; stream = err e }
    else if not (is_stream_retryable e)
    then record { dead = dead; dials = 1; stream = err e }
    else again

-- `dialStreamWithRetry`.
unfoldable pub dial_stream_with_retry : List ℕ → ℕ → Attempt → Opened
unfolding first_try
dial_stream_with_retry dead client a =
    let tried = first_try dead client a a.first_dial in
    if is_dead client dead
    then record { dead = dead; dials = 0; stream = err (codes "ssh client is dead") }
    else tried

-- What a handler leaves: its connection, the marked clients, and the stream that `pipeBoth` copies.
pub record Served : Type 0 where
  pub conn : Conn
  pub dead : List ℕ
  pub piped : Option ℕ

-- `_ = socks5Reply(c, rep)`.
abbrev pub replied : ℕ → Conn → Conn
replied rep c = (socks5_reply rep c).1

abbrev pub turned_away : Conn → List ℕ → ℕ → Served
turned_away c dead rep = record { conn = replied rep c; dead = dead; piped = none }

-- Behind `dialStreamWithRetry`; `current` is the client that the loop holds by then.
socks_opened : Conn → ℕ → Option ℕ → List ℕ → Res Bytes ℕ → Served
socks_opened c client current dead (err e) = turned_away c (mark_if_death e client dead) 5
socks_opened c client none dead (ok remote) = turned_away c dead 4
socks_opened c client (some _) dead (ok remote) = record {
  conn = replied 0 c;
  dead = dead;
  piped = some remote;
}

socks_dialled : Conn → ℕ → Option ℕ → Opened → Served
unfolding socks_opened
socks_dialled c client current o = socks_opened c client current o.dead o.stream

socks_with : Conn → List ℕ → Option ℕ → Attempt → Option ℕ → Served
unfolding socks_dialled dial_stream_with_retry
socks_with c dead none a current = turned_away c dead 4
socks_with c dead (some client) a current =
    let dialled = socks_dialled c client current (dial_stream_with_retry dead client a) in
    if is_dead client dead then turned_away c dead 4 else dialled

socks_greeted : List ℕ → Option ℕ → Attempt → Option ℕ → Res Fault Bytes × Conn → Served
unfolding socks_with
socks_greeted dead held a current (err e, c) = record { conn = c; dead = dead; piped = none }
socks_greeted dead held a current (ok target, c) = socks_with c dead held a current

-- `handleSOCKSClient`; `held` is what `curClient()` gives before the dial, and `current` after it.
unfoldable pub handle_socks_client : Conn → List ℕ → Option ℕ → Attempt → Option ℕ → Served
unfolding socks_greeted
handle_socks_client c dead held a current = socks_greeted dead held a current (socks5_handshake c)
