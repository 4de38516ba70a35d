-- ===== src/Engine/Loop/Returns.antt =====
-- When the loop returns.
use sshcustom_vpnchain.Base.{
  ℕ, ◌≡◌, refl, ap, Bool, true, false, not, ◌&&◌, ◌||◌, List, [], ◌∷◌, arith, is_some, Bytes,
}
use sshcustom_vpnchain.Base.Res.{Res, ok, err}
use sshcustom_vpnchain.Engine.State.{State}
use sshcustom_vpnchain.Engine.Loop.{
  Phase, sleeping, waiting, draining, returned, Loop, Round, bring_up, auth_failed, auth_passed,
  attempted, routed, dialling, seen, Input, cancel, see_cancel, timer, client_ends, receive, health,
  panic, clear_client, timer_at, advance, start, after, run,
}
use sshcustom_vpnchain.Engine.Loop.FailClosed.{NoPanic, is_panic}
use sshcustom_vpnchain.Engine.Loop.{stop_over, shutdown_over}

abbrev pub is_returned : Phase → Bool
is_returned returned = true
is_returned _ = false

-- A loop that has returned was cancelled, and has let go of its listeners and its client.
abbrev pub has_let_go : Loop → Bool
has_let_go l =
    not (is_returned l.phase) || (l.cancelled && (not l.listeners_up && not (is_some l.client)))

-- A round does not return.
bring_up-phase : (l : Loop) (r : Round) → (bring_up l r).phase ≡ l.phase
unfolding bring_up
bring_up-phase l r = ground arith

attempted-phase :
    (l : Loop) (r : Round) (a : Res Bytes ℕ)
    → is_returned l.phase ≡ false
    → is_returned (attempted l r a).phase ≡ false
unfolding attempted auth_passed auth_failed
attempted-phase l r (ok client) h = ap is_returned (bring_up-phase _ r)
attempted-phase l r (err e) h = h

routed-phase :
    (l : Loop) (r : Round) (online : Bool)
    → is_returned l.phase ≡ false
    → is_returned (routed l r online).phase ≡ false
unfolding routed
routed-phase l r true h = attempted-phase (dialling l) r r.auth h
routed-phase l r false h = h

let_go : (l : Loop) → is_returned l.phase ≡ false → has_let_go l ≡ true
let_go l h = ground arith

timer_at-let_go :
    (l : Loop) (r : Round) (p : Phase)
    → l.phase ≡ p
    → has_let_go l ≡ true
    → has_let_go (after l (timer_at l r p)) ≡ true
unfolding timer_at
timer_at-let_go l r sleeping e h =
    let_go (after l (timer_at l r sleeping))
      (routed-phase (seen l r.route) r r.route.online (ap is_returned e))
timer_at-let_go l r (waiting client) e h = h
timer_at-let_go l r (draining client) e h = h
timer_at-let_go l r returned e h = h

advance-let_go :
    (l : Loop) (i : Input)
    → is_panic i ≡ false
    → has_let_go l ≡ true
    → has_let_go (after l (advance l i)) ≡ true
unfolding advance
advance-let_go l cancel calm h = ground arith
advance-let_go l see_cancel calm h = ground arith
advance-let_go l (timer r) calm h = timer_at-let_go l r l.phase refl h
advance-let_go l (client_ends e) calm h = ground arith
advance-let_go l receive calm h = ground arith
advance-let_go l (health ri streams cfg) calm h = ground arith
advance-let_go l panic calm h = absurd (ground arith)
advance-let_go l clear_client calm h = ground arith
advance-let_go l stop_over calm h = ground arith
advance-let_go l shutdown_over calm h = ground arith

run-let_go :
    (is : List Input) (l : Loop) → NoPanic is → has_let_go l ≡ true → has_let_go (run l is) ≡ true
unfolding run
run-let_go [] l calm h = h
run-let_go (i ∷ is) l calm h =
    run-let_go is (after l (advance l i)) (ground arith) (advance-let_go l i (ground arith) h)

-- Without a panic, `tunnelLoop` returns only when its context is cancelled, and has then closed its
-- listeners and let go of its client.
pub run_returned :
    (st : State) (is : List Input)
    → NoPanic is
    → (run (start st) is).phase ≡ returned
    → ((run (start st) is).cancelled ≡ true)
      × ((run (start st) is).listeners_up ≡ false)
      × (is_some (run (start st) is).client ≡ false)
run_returned st is calm e =
    let l = run (start st) is in
    let h : has_let_go l ≡ true = run-let_go is (start st) calm refl in
    let over : is_returned l.phase ≡ true = ap is_returned e in
    (ground arith, ground arith, ground arith)
