-- ===== src/Engine/Serving.antt =====
-- cmd/sshcustomd/engine.go: the loops `serveSOCKS` and `serveTransparent`, over how `Accept` ends. A
-- connection is a number; what is handed to a handler is the list `handed`.
pub mod Handed
pub mod Listeners
use sshcustom_vpnchain.Base.{
  ℕ, Bool, true, false, Option, none, some, List, [], ◌∷◌, ◌++◌, if◌then◌else◌, Bytes, codes,
}
use sshcustom_vpnchain.Config.Data.{Config}
use sshcustom_vpnchain.Engine.State.{State}
use sshcustom_vpnchain.Config.{socks_addr, transparent_addr}

-- How `Accept` ends: with a connection, or with an error, while the context is done or not.
pub data Accept : Type 0 where
  connection : ℕ → Accept
  accept_error : Bool → Accept

-- A server: the daemon's state, what it handed on, in order, and whether it has returned.
pub record Server : Type 0 where
  pub state : State
  pub handed : List ℕ
  pub returned : Bool

abbrev pub not_listening : State → Server
not_listening st = record { state = st; handed = []; returned = true }

abbrev pub handing : ℕ → Server → Server
handing c s = record s { handed = c ∷ s.handed }

-- The loop of `serveSOCKS`, which returns at an error of any kind.
unfoldable pub serve_socks_loop : State → List Accept → Server
serve_socks_loop st [] = record { state = st; handed = []; returned = false }
serve_socks_loop st (connection c ∷ rest) = handing c (serve_socks_loop st rest)
serve_socks_loop st (accept_error ctx_done ∷ rest) = record {
  state = record st { socks_running = false };
  handed = [];
  returned = true;
}

-- `serveSOCKS`; the first outcome is that of `net.Listen`, with the text of its error.
unfoldable pub serve_socks : Config → Option Bytes → State → List Accept → Server
unfolding serve_socks_loop
serve_socks cfg (some e) st accepts =
    not_listening
      (record st { socks_running = false; last_error = codes "SOCKS5 listen failed: " ++ e })
serve_socks cfg none st accepts =
    serve_socks_loop (record st { socks_running = true; socks_addr = socks_addr cfg }) accepts

-- The loop of `serveTransparent`, which goes on after an error unless the context is done.
unfoldable pub serve_transparent_loop : State → List Accept → Server
serve_transparent_loop st [] = record { state = st; handed = []; returned = false }
serve_transparent_loop st (connection c ∷ rest) = handing c (serve_transparent_loop st rest)
serve_transparent_loop st (accept_error ctx_done ∷ rest) =
    let more = serve_transparent_loop st rest in
    if ctx_done
    then record { state = record st { transparent_running = false }; handed = []; returned = true }
    else more

transparent_listens : Config → State → List Accept → Server
unfolding serve_transparent_loop
transparent_listens cfg st accepts =
    serve_transparent_loop
      (record st { transparent_running = true; transparent_addr = transparent_addr cfg }) accepts

-- `serveTransparent`; the outcomes are those of `listenTransparentTCP`, and of `net.Listen` where
-- that fails.
unfoldable pub serve_transparent : Config → Bool → Option Bytes → State → List Accept → Server
unfolding transparent_listens
serve_transparent cfg true plain st accepts = transparent_listens cfg st accepts
serve_transparent cfg false none st accepts = transparent_listens cfg st accepts
serve_transparent cfg false (some e) st accepts = not_listening (record st {
  transparent_running = false;
  last_error = codes "transparent listen failed: " ++ e;
})
