-- ===== src/Engine/Streams/Closed.antt =====
-- The handlers are fail-closed.
use sshcustom_vpnchain.Base.{
  ℕ, ◌≡◌, refl, sym, ◌∙◌, ◌⊎◌, inl, inr, Bool, true, false, Option, none, some, List, arith,
  if◌then◌else◌, Bytes,
}
use sshcustom_vpnchain.Base.Res.{Res, ok, err}
use sshcustom_vpnchain.Net.Conn.{Conn}
use sshcustom_vpnchain.Socks.{socks5_handshake}
use sshcustom_vpnchain.Engine.Streams.{
  is_dead, Attempt, dial_stream_with_retry, Served, replied, turned_away, socks_opened,
  socks_dialled, socks_with, socks_greeted, handle_socks_client,
}
use sshcustom_vpnchain.Engine.Streams.{is_usable}
use sshcustom_vpnchain.Engine.Streams.Retries.{dial_stream_with_retry-policy, is_retried}

-- What a served client sees: either a stream that a dial gave is copied, and the answer is success,
-- or no stream is copied, and the answer is that the host cannot be reached or the dial failed.
abbrev pub Fair : Conn → List ℕ → Option ℕ → Attempt → Served → Type 0
Fair c dead held a s =
    ((remote : ℕ) × (s.piped ≡ some remote)
      × (s.conn ≡ replied 0 c)
      × (is_usable held dead ≡ true)
      × ((a.first_dial ≡ ok remote) ⊎ (a.second_dial ≡ ok remote)))
    ⊎ ((s.piped ≡ none) × ((s.conn ≡ replied 4 c) ⊎ (s.conn ≡ replied 5 c)))

pick-ok :
    (b : Bool) (first second : Res Bytes ℕ) (remote : ℕ)
    → (if b then second else first) ≡ ok remote
    → (first ≡ ok remote) ⊎ (second ≡ ok remote)
pick-ok true first second remote h = inr h
pick-ok false first second remote h = inl h

pub opened-ok :
    (dead : List ℕ) (client remote : ℕ) (a : Attempt)
    → is_dead client dead ≡ false
    → (dial_stream_with_retry dead client a).stream ≡ ok remote
    → (a.first_dial ≡ ok remote) ⊎ (a.second_dial ≡ ok remote)
opened-ok dead client remote a alive h =
    let policy = dial_stream_with_retry-policy dead client 0 a alive in
    pick-ok (is_retried dead a) a.first_dial a.second_dial remote (sym policy.1 ∙ h)

Fair-opened :
    (c : Conn) (dead marked : List ℕ) (client : ℕ) (a : Attempt) (current : Option ℕ)
    (r : Res Bytes ℕ)
    → is_dead client dead ≡ false
    → (dial_stream_with_retry dead client a).stream ≡ r
    → Fair c dead (some client) a (socks_opened c client current marked r)
unfolding socks_opened
Fair-opened c dead marked client a current (err e) alive h = inr (refl, inr refl)
Fair-opened c dead marked client a none (ok remote) alive h = inr (refl, inl refl)
Fair-opened c dead marked client a (some n) (ok remote) alive h =
    inl (remote, refl, refl, ground arith, opened-ok dead client remote a alive h)

Fair-if :
    (c : Conn) (dead : List ℕ) (held : Option ℕ) (a : Attempt) (b : Bool) (x y : Served)
    → Fair c dead held a x
    → (b ≡ false → Fair c dead held a y)
    → Fair c dead held a (if b then x else y)
Fair-if c dead held a true x y hx hy = hx
Fair-if c dead held a false x y hx hy = hy refl

Fair-with :
    (c : Conn) (dead : List ℕ) (held : Option ℕ) (a : Attempt) (current : Option ℕ)
    → Fair c dead held a (socks_with c dead held a current)
unfolding socks_with socks_dialled
Fair-with c dead none a current = inr (refl, inl refl)
Fair-with c dead (some client) a current =
    let opened = dial_stream_with_retry dead client a in
    Fair-if c dead (some client) a (is_dead client dead) (turned_away c dead 4)
      (socks_dialled c client current opened) (inr (refl, inl refl))
      (λ alive. Fair-opened c dead opened.dead client a current opened.stream alive refl)

-- The SOCKS5 handler is fail-closed. Once the handshake has given a target, either a stream is
-- copied, which a dial over the tunnel gave while the loop held a client that was alive, and the
-- client was told success; or no stream is copied, and the client was told that the host cannot be
-- reached or that the connection was refused. It writes one reply, and nothing else, either way.
pub handle_socks_client-Fair :
    (c c' : Conn) (target : Bytes) (dead : List ℕ) (held : Option ℕ) (a : Attempt)
    (current : Option ℕ)
    → socks5_handshake c ≡ (ok target, c')
    → Fair c' dead held a (handle_socks_client c dead held a current)
unfolding handle_socks_client socks_greeted
handle_socks_client-Fair c c' target dead held a current h = rw h (Fair-with c' dead held a current)
