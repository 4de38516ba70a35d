-- ===== src/Engine/Lifecycle/Single.antt =====
-- One tunnel at a time, and no automatic restart, as long as calls of `startTunnel` do not overlap.
use sshcustom_vpnchain.Base.{
  ℕ, zero, suc, ◌≤◌, ◌≡◌, refl, Bool, true, false, not, ◌&&◌, ◌||◌, Option, none, some, List, [],
  ◌∷◌, arith, leb, ◌==◌, if◌then◌else◌,
}
use sshcustom_vpnchain.Profile.Data.{Profile, ProfilesFile}
use sshcustom_vpnchain.Profile.Select.{selected_profile}
use sshcustom_vpnchain.Engine.State.{State}
use sshcustom_vpnchain.Engine.Lifecycle.{
  Daemon, new_daemon, reloaded, start_with, start_tunnel, stop_begins, stop_ends, loop_over,
  loop_returns, loop_panics, sleeper_wakes, LifeEvent, start_called, stop_called, stop_over,
  loop_returned, loop_panicked, slept, shutdown, life_step, life_run,
}

-- At most one loop, which runs only while the daemon says so; its context is cancelled only when a
-- stop was asked for or the daemon shuts down; and no goroutine waits to start a loop again.
abbrev pub is_single : Daemon → Bool
is_single d =
    (d.sleepers == 0)
    && (leb d.loops 1
        && ((d.loops == 0 || d.tunnel_running)
            && (d.loops == 0 || (not d.cancelled || (d.explicit_stop || d.shutting_down)))))

single-start_with :
    (d : Daemon) (now : ℕ) (o : Option Profile)
    → d.tunnel_running ≡ false
    → is_single d ≡ true
    → is_single (start_with d now o) ≡ true
unfolding start_with
single-start_with d now none off h = h
single-start_with d now (some sp) off h = ground arith

single-if :
    (b : Bool) (x y : Daemon)
    → is_single x ≡ true
    → (b ≡ false → is_single y ≡ true)
    → is_single (if b then x else y) ≡ true
single-if true x y hx hy = hx
single-if false x y hx hy = hy refl

single-start :
    (d : Daemon) (now : ℕ) (latest : Option ProfilesFile)
    → is_single d ≡ true
    → is_single (start_tunnel d now latest) ≡ true
unfolding start_tunnel
single-start d now latest h =
    let file = reloaded d.file latest in
    single-if d.tunnel_running d (start_with (record d { file = file }) now (selected_profile file))
      h (λ off. single-start_with (record d { file = file }) now (selected_profile file) off h)

single-stop_ends : (d : Daemon) (n : ℕ) → is_single d ≡ true → is_single (stop_ends d n) ≡ true
unfolding stop_ends
single-stop_ends d zero h = h
single-stop_ends d (suc n) h = h

single-returns :
    (d : Daemon) (n : ℕ) → d.loops ≡ n → is_single d ≡ true → is_single (loop_returns d n) ≡ true
unfolding loop_returns loop_over
single-returns d zero e h = h
single-returns d (suc n) e h = ground arith

single-panics :
    (d : Daemon) (n : ℕ) → d.loops ≡ n → is_single d ≡ true → is_single (loop_panics d n) ≡ true
single-panics d zero e h = h
single-panics d (suc n) e h = ground arith

single-wakes :
    (d : Daemon) (now : ℕ) (latest : Option ProfilesFile) (n : ℕ)
    → d.sleepers ≡ n
    → is_single d ≡ true
    → is_single (sleeper_wakes d now latest n) ≡ true
unfolding sleeper_wakes
single-wakes d now latest zero e h = h
single-wakes d now latest (suc n) e h = absurd (ground arith)

single-step : (d : Daemon) (v : LifeEvent) → is_single d ≡ true → is_single (life_step d v) ≡ true
unfolding life_step stop_begins
single-step d (start_called now latest) h = single-start d now latest h
single-step d stop_called h = ground arith
single-step d stop_over h = single-stop_ends d d.stops h
single-step d loop_returned h = single-returns d d.loops refl h
single-step d loop_panicked h = single-panics d d.loops refl h
single-step d (slept now latest) h = single-wakes d now latest d.sleepers refl h
single-step d shutdown h = ground arith

pub single-run :
    (vs : List LifeEvent) (d : Daemon) → is_single d ≡ true → is_single (life_run d vs) ≡ true
unfolding life_run
single-run [] d h = h
single-run (v ∷ vs) d h = single-run vs (life_step d v) (single-step d v h)

-- Whatever starts, stops, returns, panics and shutdowns follow one another from the start of the
-- daemon, each start as one event (nothing falls between its check and its end): at most one
-- goroutine is inside `tunnelLoop`, only while `tunnelRunning` holds; and no goroutine ever waits to
-- restart the tunnel, that is, the automatic restart is not reached.
pub one_loop :
    (file : ProfilesFile) (st : State) (vs : List LifeEvent)
    → let d = life_run (new_daemon file st) vs in
      (d.loops ≤ 1) × ((d.loops == 0 || d.tunnel_running) ≡ true) × (d.sleepers ≡ 0)
one_loop file st vs =
    let d = life_run (new_daemon file st) vs in
    let h : is_single d ≡ true = single-run vs (new_daemon file st) refl in
    (ground arith, ground arith, ground arith)

pub single-running :
    (vs : List LifeEvent) (file : ProfilesFile) (st : State)
    → let d = life_run (new_daemon file st) vs in
      (d.sleepers ≡ 0) × ((d.loops == 0 || d.tunnel_running) ≡ true)
single-running vs file st =
    let h : is_single (life_run (new_daemon file st) vs) ≡ true =
      single-run vs (new_daemon file st) refl in
    (ground arith, ground arith)

pub start-running :
    (d : Daemon) (now : ℕ) (latest : Option ProfilesFile)
    → d.tunnel_running ≡ true
    → start_tunnel d now latest ≡ d
unfolding start_tunnel
start-running d now latest r = either d.tunnel_running r
  where
    either :
        (b : Bool)
        → b ≡ true
        → (if b
            then d
            else start_with
                (record d { file = reloaded d.file latest })
                now
                (selected_profile (reloaded d.file latest)))
          ≡ d
    either true e = refl
    either false e = absurd (ground arith)
