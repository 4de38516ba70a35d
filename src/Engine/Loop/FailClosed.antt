-- ===== src/Engine/Loop/FailClosed.antt =====
-- What the loop tells the shell about the routing rules: they go up once, and it never takes them down
-- again, unless it panics. `stopTunnel` does, with net_clean.sh, behind the cancellation.
use sshcustom_vpnchain.Base.{
  ℕ, ◌≤◌, ◌≡◌, refl, ◌⊎◌, inr, Bool, true, false, List, [], ◌∷◌, ◌++◌, arith, length, any,
}
use sshcustom_vpnchain.Engine.State.{State}
use sshcustom_vpnchain.Engine.Loop.{
  Phase, sleeping, waiting, returned, Script, enable, disable, Loop, Input, cancel, see_cancel,
  timer, client_ends, receive, health, panic, clear_client, advance, start, after, run,
}
use sshcustom_vpnchain.Base.{◌||◌}
use sshcustom_vpnchain.Base.{Bool, ◌&&◌, ◌||◌, ◌==◌, ◌⊎◌, inr, ℕ}
use sshcustom_vpnchain.Engine.Loop.{stop_over, shutdown_over}

abbrev pub is_panic : Input → Bool
is_panic panic = true
is_panic _ = false

abbrev is_returned : Phase → Bool
is_returned returned = true
is_returned _ = false

abbrev pub is_disable : Script → Bool
is_disable disable = true
is_disable enable = false

abbrev pub NoPanic : List Input → Type 0
NoPanic is = any is_panic is ≡ false

-- The script has been told to enable the rules at most once, and never to disable them.
record IsOnce (l : Loop) : Type 0 where
  few : length l.scripts ≤ 1
  kept : any is_disable l.scripts ≡ false
  fresh : l.listeners_up ≡ false → (l.phase ≡ returned) ⊎ (l.scripts ≡ [])
  told : l.iptables_up ≡ true → l.scripts ≡ enable ∷ []

advance-IsOnce :
    (l : Loop) (i : Input) → is_panic i ≡ false → IsOnce l → IsOnce (after l (advance l i))
unfolding advance
advance-IsOnce l cancel calm h = ground arith
advance-IsOnce l see_cancel calm h = ground arith
advance-IsOnce l (timer r) calm h = ground arith
advance-IsOnce l (client_ends e) calm h = ground arith
advance-IsOnce l receive calm h = ground arith
advance-IsOnce l (health ri streams cfg) calm h = ground arith
advance-IsOnce l panic calm h = ground arith
advance-IsOnce l clear_client calm h = ground arith
advance-IsOnce l stop_over calm h = ground arith
advance-IsOnce l shutdown_over calm h = ground arith

-- The loop goes on with its listeners, or has returned; the script was told nothing more than it had
-- been; and as long as the context is not cancelled, the rules were not cleaned either.
record Keeps (from l : Loop) : Type 0 where
  same_scripts : l.scripts ≡ from.scripts
  same_rules : l.iptables_up ≡ from.iptables_up
  going : l.listeners_up || is_returned l.phase ≡ true
  held : l.cancelled || (l.listeners_up && l.cleans == from.cleans) ≡ true

run-IsOnce : (is : List Input) (l : Loop) → NoPanic is → IsOnce l → IsOnce (run l is)
unfolding run
run-IsOnce [] l calm h = h
run-IsOnce (i ∷ is) l calm h =
    run-IsOnce is (after l (advance l i)) (ground arith) (advance-IsOnce l i (ground arith) h)

-- From the start of the loop, in a run with no panic, the script is told to enable the rules at most
-- once, and never to disable them.
pub rules_once :
    (st : State) (is : List Input)
    → NoPanic is
    → (length (run (start st) is).scripts ≤ 1)
      × (any is_disable (run (start st) is).scripts ≡ false)
rules_once st is calm =
    let h = run-IsOnce is (start st) calm (record {
      few = omega arith;
      kept = refl;
      fresh = λ _. inr refl;
      told = λ e. absurd (ground arith);
    }) in
    (h.few, h.kept)

-- A panic in between does take them down: when the rules are up and the context is not cancelled,
-- a panic outside of a blocked receive makes the loop disable them.
pub panic_opens :
    (l : Loop) (client : ℕ)
    → (l.phase ≡ sleeping) ⊎ (l.phase ≡ waiting client)
    → l.cancelled ≡ false
    → l.iptables_up ≡ true
    → (after l (advance l panic)).scripts ≡ l.scripts ++ disable ∷ []
unfolding advance
panic_opens l client at going up = ground arith
