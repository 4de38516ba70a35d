-- ===== src/Tests/Lifecycle.antt =====
-- Examples for starting and stopping the tunnel.
use sshcustom_vpnchain.Base.{◌≤◌, ◌≡◌, refl, true, false, none, List, [], ◌∷◌}
use sshcustom_vpnchain.Profile.Select.{selected_profile, by_selected_id}
use sshcustom_vpnchain.Engine.State.{idle}
use sshcustom_vpnchain.Engine.Lifecycle.{
  new_daemon, start_tunnel, start_with, LifeEvent, start_called, stop_called, stop_over,
  loop_panicked, life_step, life_run,
}
use sshcustom_vpnchain.Engine.Lifecycle.Restart.{
  stop_then_start, Restarts, in_time, restart_lost, too_late,
}
use sshcustom_vpnchain.Engine.Lifecycle.Wedged.{wedged}
use sshcustom_vpnchain.Tests.Data.{a_state, home, one_profile}
use sshcustom_vpnchain.Base.{some, ◌+◌}
use sshcustom_vpnchain.Engine.Lifecycle.Overlap.{
  Starting, start_run, start_checks, start_goes, start_run_overlaps,
}
use sshcustom_vpnchain.Engine.Lifecycle.{Daemon}

abbrev started : List LifeEvent
started = start_called 5 none ∷ []

abbrev new : Daemon
new = new_daemon one_profile a_state

-- Two requests to start the tunnel at once.
start_run_overlaps_example :
    let s : Starting = record { daemon = new; starters = 0 } in
    ((start_run s (start_checks ∷ start_goes 5 none ∷ [])).daemon ≡ start_tunnel new 5 none)
    × ((start_run s (
          start_checks
          ∷ start_checks
          ∷ start_goes 5 (some one_profile)
          ∷ start_goes 6 (some one_profile)
          ∷ [])).daemon.loops
        ≡ 2 + 0)
unfolding selected_profile by_selected_id
start_run_overlaps_example =
    start_run_overlaps new 5 none ((5, one_profile) ∷ (6, one_profile) ∷ []) refl refl

stop_then_start_example :
    Restarts (life_run (life_run (new_daemon one_profile a_state) started) in_time) 9 none home
unfolding life_run life_step start_tunnel start_with selected_profile by_selected_id
stop_then_start_example = stop_then_start one_profile a_state started 9 none home refl refl

restart_lost_example :
    let d = life_run (life_run (new_daemon one_profile a_state) started) (too_late 9 none) in
    (d.loops ≡ 0) × (d.tunnel_running ≡ false) × (d.st.state ≡ idle) × (d.st.running ≡ false)
unfolding life_run life_step start_tunnel start_with selected_profile by_selected_id
restart_lost_example = restart_lost one_profile a_state started 9 none refl

wedged_example :
    let before = life_run (new_daemon one_profile a_state) started in
    let d = life_run before (loop_panicked ∷ stop_called ∷ stop_over ∷ []) in
    (d.tunnel_running ≡ true) × (d.loops ≤ before.loops) × (start_tunnel d 9 none ≡ d)
unfolding life_run life_step start_tunnel start_with selected_profile by_selected_id
wedged_example =
    wedged one_profile a_state started (loop_panicked ∷ stop_called ∷ stop_over ∷ []) 9 none refl
      refl
