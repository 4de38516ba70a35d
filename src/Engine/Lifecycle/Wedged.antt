-- ===== src/Engine/Lifecycle/Wedged.antt =====
-- A loop that does not return keeps the daemon from any other tunnel.
use sshcustom_vpnchain.Base.{
  ℕ, zero, suc, ◌≤◌, ◌≡◌, refl, sym, subst, Bool, true, false, Option, List, [], ◌∷◌, arith, any,
}
use sshcustom_vpnchain.Profile.Data.{ProfilesFile}
use sshcustom_vpnchain.Engine.State.{State}
use sshcustom_vpnchain.Engine.Lifecycle.{
  Daemon, new_daemon, start_tunnel, stop_begins, stop_ends, loop_panics, sleeper_wakes, LifeEvent,
  start_called, stop_called, stop_over, loop_returned, loop_panicked, slept, shutdown, life_step,
  life_run,
}
use sshcustom_vpnchain.Engine.Lifecycle.Single.{single-running, start-running}

abbrev pub is_return : LifeEvent → Bool
is_return loop_returned = true
is_return _ = false

-- The daemon says that a tunnel runs, and no goroutine will start another.
abbrev IsBusy : Daemon → Type 0
IsBusy d = (d.tunnel_running ≡ true) × (d.sleepers ≡ 0)

IsBusy-stop_ends :
    (d : Daemon) (n : ℕ) → IsBusy d → IsBusy (stop_ends d n) × ((stop_ends d n).loops ≡ d.loops)
unfolding stop_ends
IsBusy-stop_ends d zero h = (h, refl)
IsBusy-stop_ends d (suc n) h = (h, refl)

IsBusy-panics :
    (d : Daemon) (n : ℕ)
    → d.loops ≡ n
    → IsBusy d
    → IsBusy (loop_panics d n) × ((loop_panics d n).loops ≤ d.loops)
IsBusy-panics d zero e h = (h, omega arith)
IsBusy-panics d (suc n) e h = (h, ground arith)

IsBusy-wakes :
    (d : Daemon) (now n : ℕ) (latest : Option ProfilesFile)
    → d.sleepers ≡ n
    → IsBusy d
    → sleeper_wakes d now latest n ≡ d
unfolding sleeper_wakes
IsBusy-wakes d now zero latest e h = refl
IsBusy-wakes d now (suc n) latest e h = absurd (omega (arith, h.1))

IsBusy-step :
    (d : Daemon) (v : LifeEvent)
    → is_return v ≡ false
    → IsBusy d
    → IsBusy (life_step d v) × ((life_step d v).loops ≤ d.loops)
unfolding life_step stop_begins
IsBusy-step d (start_called now latest) q h =
    let e = sym (start-running d now latest h.0) in
    subst (λ (x : Daemon). IsBusy x × (x.loops ≤ d.loops)) e (h, omega arith)
IsBusy-step d stop_called q h = ground arith
IsBusy-step d stop_over q h =
    let over = IsBusy-stop_ends d d.stops h in (over.0, omega (arith, over.1))
IsBusy-step d loop_returned q h = absurd (ground arith)
IsBusy-step d loop_panicked q h = IsBusy-panics d d.loops refl h
IsBusy-step d (slept now latest) q h =
    let e = sym (IsBusy-wakes d now d.sleepers latest refl h) in
    subst (λ (x : Daemon). IsBusy x × (x.loops ≤ d.loops)) e (h, omega arith)
IsBusy-step d shutdown q h = (h, omega arith)

IsBusy-run :
    (vs : List LifeEvent) (d : Daemon)
    → any is_return vs ≡ false
    → IsBusy d
    → IsBusy (life_run d vs) × ((life_run d vs).loops ≤ d.loops)
unfolding life_run
IsBusy-run [] d q h = (h, omega arith)
IsBusy-run (v ∷ vs) d q h =
    let one = IsBusy-step d v (ground arith) h in
    let rest = IsBusy-run vs (life_step d v) (ground arith) one.0 in
    (rest.0, omega (arith, one.1, rest.1))

-- A loop that never returns keeps the daemon from any other tunnel. Take any state that the daemon
-- reaches while it says that a tunnel runs, and any events after it in which the loop does not
-- return, stops, starts and panics included: it still says so, no further loop has started, and
-- `startTunnel` does nothing.
pub wedged :
    (file : ProfilesFile) (st : State) (vs ws : List LifeEvent) (now : ℕ)
    (latest : Option ProfilesFile)
    → (life_run (new_daemon file st) vs).tunnel_running ≡ true
    → any is_return ws ≡ false
    → let before = life_run (new_daemon file st) vs in
      let d = life_run before ws in
      (d.tunnel_running ≡ true) × (d.loops ≤ before.loops) × (start_tunnel d now latest ≡ d)
wedged file st vs ws now latest r q =
    let before = life_run (new_daemon file st) vs in
    let h = IsBusy-run ws before q (r, (single-running vs file st).0) in
    (h.0.0, h.1, start-running (life_run before ws) now latest h.0.0)
