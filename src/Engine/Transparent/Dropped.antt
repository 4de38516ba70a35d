-- ===== src/Engine/Transparent/Dropped.antt =====
-- `handleTransparentClient` is fail-closed.
use sshcustom_vpnchain.Base.{
  ℕ, ◌≡◌, refl, sym, subst, ◌⊎◌, inl, inr, Bool, true, false, Option, none, some, List, arith,
  if◌then◌else◌, Bool-cases, Bytes,
}
use sshcustom_vpnchain.Base.Res.{Res, ok, err}
use sshcustom_vpnchain.Config.Data.{Config}
use sshcustom_vpnchain.Engine.Streams.{is_usable, Attempt, dial_stream_with_retry}
use sshcustom_vpnchain.Engine.Streams.Closed.{opened-ok}
use sshcustom_vpnchain.Engine.Transparent.{
  LocalAddr, Answer, Handled, dropped, opened, dial_target, aimed_at, target_of,
  is_local_or_blocked_target, handle_transparent_client,
}

-- A connection is dropped with nothing sent anywhere, or a stream was asked for from a client that
-- was there and alive, for the target that the kernel names, which is not held back; and what is then
-- copied is a stream that one of the dials gave.
abbrev pub Closed : Config → LocalAddr → Answer → List ℕ → Option ℕ → Attempt → Handled → Type 0
Closed cfg local answer dead held a h =
    (h ≡ dropped dead)
    ⊎ ((target : Bytes) × (h.dialled ≡ some target)
        × (target_of local answer ≡ some target)
        × (is_local_or_blocked_target target cfg ≡ false)
        × (is_usable held dead ≡ true)
        × ((remote : ℕ)
            → h.piped ≡ some remote
            → (a.first_dial ≡ ok remote) ⊎ (a.second_dial ≡ ok remote)))

opened-facts :
    (target : Bytes) (client : ℕ) (current : Option ℕ) (marked : List ℕ) (r : Res Bytes ℕ)
    → ((opened target client current marked r).dialled ≡ some target)
      × ((remote : ℕ) → (opened target client current marked r).piped ≡ some remote → r ≡ ok remote)
unfolding opened
opened-facts target client current marked (err e) = (refl, λ remote p. ground arith)
opened-facts target client none marked (ok got) = (refl, λ remote p. ground arith)
opened-facts target client (some n) marked (ok got) = (refl, λ remote p. ground arith)

Closed-if :
    (cfg : Config) (local : LocalAddr) (answer : Answer) (dead : List ℕ) (held : Option ℕ)
    (a : Attempt) (b : Bool) (x : Handled)
    → (b ≡ true → Closed cfg local answer dead held a x)
    → Closed cfg local answer dead held a (if b then x else dropped dead)
Closed-if cfg local answer dead held a true x h = h refl
Closed-if cfg local answer dead held a false x h = inl refl

Closed-dial_target :
    (cfg : Config) (local : LocalAddr) (answer : Answer) (dead : List ℕ) (held : Option ℕ)
    (a : Attempt) (current : Option ℕ) (target : Bytes)
    → target_of local answer ≡ some target
    → is_local_or_blocked_target target cfg ≡ false
    → Closed cfg local answer dead held a (dial_target target dead held a current)
unfolding dial_target
Closed-dial_target cfg local answer dead none a current target e free = inl refl
Closed-dial_target cfg local answer dead (some client) a current target e free =
    let o = dial_stream_with_retry dead client a in
    let facts = opened-facts target client current o.dead o.stream in
    Closed-if cfg local answer dead (some client) a (is_usable (some client) dead) _ (λ alive. inr (
      target,
      facts.0,
      e,
      free,
      alive,
      λ remote p. opened-ok dead client remote a (ground arith) (facts.1 remote p),
    ))

Closed-aimed_at :
    (cfg : Config) (local : LocalAddr) (answer : Answer) (dead : List ℕ) (held : Option ℕ)
    (a : Attempt) (current : Option ℕ) (found : Option Bytes)
    → target_of local answer ≡ found
    → Closed cfg local answer dead held a (aimed_at cfg dead held a current found)
unfolding aimed_at
Closed-aimed_at cfg local answer dead held a current none e = inl refl
Closed-aimed_at cfg local answer dead held a current (some target) e =
    elim (Bool-cases (is_local_or_blocked_target target cfg)) [
      | inl blocked ↦ rw blocked (inl refl)
      | inr free ↦
          let dialled = Closed-dial_target cfg local answer dead held a current target e free in
          subst
            (λ (b : Bool).
              Closed cfg local answer dead held a
                (if b then dropped dead else dial_target target dead held a current))
            (sym free) dialled
    ]

-- `handleTransparentClient` never sends a connection anywhere but through the tunnel, and never one
-- for a target that is held back: either it drops the connection, with no stream dialled and no
-- client marked, or it dials the target that the kernel names, which `isLocalOrBlockedTarget` lets
-- pass, on a client that is there and alive, and copies only a stream that one of the dials gave.
pub handle_transparent_client-Closed :
    (cfg : Config) (tcp : Bool) (local : LocalAddr) (answer : Answer) (dead : List ℕ)
    (held : Option ℕ) (a : Attempt) (current : Option ℕ)
    → Closed cfg local answer dead held a
        (handle_transparent_client cfg tcp local answer dead held a current)
unfolding handle_transparent_client
handle_transparent_client-Closed cfg false local answer dead held a current = inl refl
handle_transparent_client-Closed cfg true local answer dead held a current =
    Closed-aimed_at cfg local answer dead held a current (target_of local answer) refl
