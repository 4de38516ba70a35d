-- ===== src/Engine/Loop/Stuck.antt =====
-- What becomes of the loop when the SSH connection ends. The value of `waitDone` is taken by the
-- `select`, and the goroutine sends only one, so the receive behind it blocks for good.
use sshcustom_vpnchain.Base.{ℕ, ◌≡◌, subst, true, Option, none, List, [], ◌∷◌, arith, Bytes}
use sshcustom_vpnchain.Engine.State.{State, connected_state}
use sshcustom_vpnchain.Engine.Loop.{
  WaitDone, full, drained, Phase, waiting, draining, Loop, Round, Input, cancel, see_cancel, timer,
  client_ends, receive, health, panic, clear_client, advance, start, after, run,
}
use sshcustom_vpnchain.Base.{Bool, ◌⊎◌, ℕ}
use sshcustom_vpnchain.Engine.Loop.{stop_over, shutdown_over}

-- At the second receive the channel is empty and its goroutine has ended; while a client is there
-- the state says so, unless the context was cancelled.
abbrev pub IsShown : Bool → State → Type 0
IsShown cancelled st = (cancelled ≡ true) ⊎ ((st.state ≡ connected_state) × (st.connected ≡ true))

abbrev Drains : WaitDone → Phase → Bool → State → Type 0
Drains w (draining client) cancelled st = (w ≡ drained) × IsShown cancelled st
Drains w (waiting client) cancelled st = IsShown cancelled st
Drains w _ cancelled st = Unit {0}

abbrev IsDrained : Loop → Type 0
IsDrained l = Drains l.wait_done l.phase l.cancelled l.st

advance-IsDrained : (l : Loop) (i : Input) → IsDrained l → IsDrained (after l (advance l i))
unfolding advance
advance-IsDrained l cancel h = ground arith
advance-IsDrained l see_cancel h = ground arith
advance-IsDrained l (timer r) h = ground arith
advance-IsDrained l (client_ends e) h = ground arith
advance-IsDrained l receive h = ground arith
advance-IsDrained l (health ri streams cfg) h = ground arith
advance-IsDrained l panic h = ground arith
advance-IsDrained l clear_client h = h
advance-IsDrained l stop_over h = ground arith
advance-IsDrained l shutdown_over h = ground arith

run-IsDrained : (is : List Input) (l : Loop) → IsDrained l → IsDrained (run l is)
unfolding run
run-IsDrained [] l h = h
run-IsDrained (i ∷ is) l h = run-IsDrained is (after l (advance l i)) (advance-IsDrained l i h)

-- The loop stands at the second receive with nothing to receive, and does nothing.
abbrev Blocked : ℕ → Loop → Loop → Type 0
Blocked client from l =
    (l.phase ≡ draining client) × (l.wait_done ≡ drained) × (l.closed ≡ from.closed)

advance-Blocked :
    (client : ℕ) (from l : Loop) (i : Input)
    → Blocked client from l
    → Blocked client from (after l (advance l i))
unfolding advance
advance-Blocked client from l cancel h = ground arith
advance-Blocked client from l see_cancel h = ground arith
advance-Blocked client from l (timer r) h = ground arith
advance-Blocked client from l (client_ends e) h = ground arith
advance-Blocked client from l receive h = ground arith
advance-Blocked client from l (health ri streams cfg) h = ground arith
advance-Blocked client from l panic h = ground arith
advance-Blocked client from l clear_client h = ground arith
advance-Blocked client from l stop_over h = ground arith
advance-Blocked client from l shutdown_over h = ground arith

run-Blocked :
    (client : ℕ) (from l : Loop) (is : List Input)
    → Blocked client from l
    → Blocked client from (run l is)
unfolding run
run-Blocked client from l [] h = h
run-Blocked client from l (i ∷ is) h =
    run-Blocked client from (after l (advance l i)) is (advance-Blocked client from l i h)

draining-IsShown :
    (l : Loop) (client : ℕ) → l.phase ≡ draining client → IsDrained l → IsShown l.cancelled l.st
draining-IsShown l client at h = (subst (λ p. Drains l.wait_done p l.cancelled l.st) at h).1

blocked_receive :
    (l : Loop) (client : ℕ)
    → l.phase ≡ draining client
    → l.wait_done ≡ drained
    → advance l receive ≡ none
unfolding advance
blocked_receive l client at empty = ground arith

blocked_cancel : (l : Loop) (client : ℕ) → l.phase ≡ draining client → advance l see_cancel ≡ none
unfolding advance
blocked_cancel l client at = ground arith

blocked_timer :
    (l : Loop) (client : ℕ) (r : Round) → l.phase ≡ draining client → advance l (timer r) ≡ none
unfolding advance
blocked_timer l client r at = ground arith

-- The loop hangs when the connection is lost. Take any run in which the client has ended and the
-- `select` has received that: then, whatever happens next, a cancelled context included, the loop
-- never leaves the receive behind the `select`, never closes the client and never
-- dials again (its receive does not fire, and neither a timer nor the cancellation is looked at); and
-- the state goes on to say CONNECTED until the context is cancelled, by a stop or a shutdown.
pub loop_hangs :
    (st : State) (is js : List Input) (client : ℕ) (r : Round)
    → (run (start st) is).phase ≡ waiting client
    → (e : Option Bytes) (received : (run (start st) is).wait_done ≡ full e)
    → let there = run (after (run (start st) is) (advance (run (start st) is) receive)) js in
      (there.phase ≡ draining client)
      × (advance there receive ≡ none)
      × (advance there see_cancel ≡ none)
      × (advance there (timer r) ≡ none)
      × (there.closed ≡ (run (start st) is).closed)
      × IsShown there.cancelled there.st
loop_hangs st is js client r at e received =
    let before = run (start st) is in
    let taken = after before (advance before receive) in
    let blocked : Blocked client before taken = unfold advance in ground arith in
    let stays = run-Blocked client before taken js blocked in
    let shown =
      run-IsDrained js taken (advance-IsDrained before receive (run-IsDrained is (start st) tt)) in
    (
      stays.0,
      blocked_receive (run taken js) client stays.0 stays.1,
      blocked_cancel (run taken js) client stays.0,
      blocked_timer (run taken js) client r stays.0,
      stays.2,
      draining-IsShown (run taken js) client stays.0 shown,
    )
