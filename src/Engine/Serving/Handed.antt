-- ===== src/Engine/Serving/Handed.antt =====
-- Which connections the two servers hand on.
use sshcustom_vpnchain.Base.{
  ℕ, ◌≡◌, refl, ap, ◌∙◌, Bool, true, false, not, ◌&&◌, ◌||◌, none, List, [], ◌∷◌, arith,
  if◌then◌else◌,
}
use sshcustom_vpnchain.Config.Data.{Config}
use sshcustom_vpnchain.Engine.State.{State}
use sshcustom_vpnchain.Engine.Serving.{
  Accept, connection, accept_error, Server, serve_socks, serve_socks_loop, serve_transparent,
  serve_transparent_loop, transparent_listens,
}
use sshcustom_vpnchain.Config.{socks_addr, transparent_addr}

-- The connections that come before an error that ends the loop.
abbrev pub until : (Bool → Bool) → List Accept → List ℕ
until is_end [] = []
until is_end (connection c ∷ rest) = c ∷ until is_end rest
until is_end (accept_error done ∷ rest) = if is_end done then [] else until is_end rest

abbrev pub is_ended : (Bool → Bool) → List Accept → Bool
is_ended is_end [] = false
is_ended is_end (connection c ∷ rest) = is_ended is_end rest
is_ended is_end (accept_error done ∷ rest) = is_end done || is_ended is_end rest

socks_loop-until :
    (st : State) (accepts : List Accept)
    → ((serve_socks_loop st accepts).handed ≡ until (λ d. true) accepts)
      × ((serve_socks_loop st accepts).returned ≡ is_ended (λ d. true) accepts)
      × ((serve_socks_loop st accepts).state.socks_running
          ≡ st.socks_running && not (is_ended (λ d. true) accepts))
unfolding serve_socks_loop
socks_loop-until st [] = (refl, refl, ground arith)
socks_loop-until st (connection c ∷ rest) =
    let h = socks_loop-until st rest in (ap (◌∷◌ c) h.0, h.1, h.2)
socks_loop-until st (accept_error done ∷ rest) = (refl, refl, ground arith)

transparent_loop-until :
    (st : State) (accepts : List Accept)
    → ((serve_transparent_loop st accepts).handed ≡ until (λ d. d) accepts)
      × ((serve_transparent_loop st accepts).returned ≡ is_ended (λ d. d) accepts)
      × ((serve_transparent_loop st accepts).state.transparent_running
          ≡ st.transparent_running && not (is_ended (λ d. d) accepts))
unfolding serve_transparent_loop
transparent_loop-until st [] = (refl, refl, ground arith)
transparent_loop-until st (connection c ∷ rest) =
    let h = transparent_loop-until st rest in (ap (◌∷◌ c) h.0, h.1, h.2)
transparent_loop-until st (accept_error true ∷ rest) = (refl, refl, ground arith)
transparent_loop-until st (accept_error false ∷ rest) = transparent_loop-until st rest

either-mode :
    (cfg : Config) (tproxy : Bool) (st : State) (accepts : List Accept)
    → serve_transparent cfg tproxy none st accepts ≡ transparent_listens cfg st accepts
unfolding serve_transparent
either-mode cfg true st accepts = refl
either-mode cfg false st accepts = refl

-- The two servers take an error of `Accept` differently. Both hand every connection on, each once and
-- in the order of their coming; but `serveTransparent` leaves only at an error behind the end of its
-- context, while `serveSOCKS` leaves at the first error of any kind, a passing one as well, and then
-- serves no connection any more. What the state says of each server is true.
pub serving-until :
    (cfg : Config) (tproxy : Bool) (st : State) (accepts : List Accept)
    → ((serve_transparent cfg tproxy none st accepts).handed ≡ until (λ done. done) accepts)
      × ((serve_transparent cfg tproxy none st accepts).state.transparent_running
          ≡ not (is_ended (λ done. done) accepts))
      × ((serve_socks cfg none st accepts).handed ≡ until (λ done. true) accepts)
      × ((serve_socks cfg none st accepts).state.socks_running
          ≡ not (is_ended (λ done. true) accepts))
unfolding serve_socks serve_transparent transparent_listens
serving-until cfg tproxy st accepts =
    let s =
      socks_loop-until (record st { socks_running = true; socks_addr = socks_addr cfg }) accepts in
    let t =
      transparent_loop-until
        (record st { transparent_running = true; transparent_addr = transparent_addr cfg })
        accepts in
    let same = either-mode cfg tproxy st accepts in
    (
      ap (λ (v : Server). v.handed) same ∙ t.0,
      ap (λ (v : Server). v.state.transparent_running) same ∙ t.2,
      s.0,
      s.2,
    )
