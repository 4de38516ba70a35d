-- ===== src/Engine/Lifecycle/Restart.antt =====
-- Stopping and starting again: what works, and what does not.
use sshcustom_vpnchain.Base.{
  ℕ, zero, suc, ◌≡◌, refl, sym, ap, ◌∙◌, subst, Bool, true, false, ◌||◌, Option, some, List, [],
  ◌∷◌, arith, if◌then◌else◌,
}
use sshcustom_vpnchain.Profile.Data.{Profile, ProfilesFile}
use sshcustom_vpnchain.Profile.Select.{selected_profile}
use sshcustom_vpnchain.Engine.State.{State, starting, idle}
use sshcustom_vpnchain.Engine.Lifecycle.{
  Daemon, new_daemon, reloaded, start_with, start_tunnel, stop_begins, at_rest, stop_ends,
  stopped_state, next_backoff, loop_over, loop_returns, LifeEvent, start_called, stop_called,
  stop_over, loop_returned, life_step, life_run,
}
use sshcustom_vpnchain.Engine.Lifecycle.Single.{single-running, start-running}

if-true : (b : Bool) (x y : Daemon) → b ≡ true → (if b then x else y) ≡ x
if-true true x y e = refl
if-true false x y e = absurd (ground arith)

if-false : (b : Bool) (x y : Daemon) → b ≡ false → (if b then x else y) ≡ y
if-false true x y e = absurd (ground arith)
if-false false x y e = refl

-- What the daemon is after `stopTunnel` has asked for an end.
abbrev asked_to_stop : Daemon → Daemon
asked_to_stop d = record d { explicit_stop = true; cancelled = true; stops = suc d.stops }

stop_begins-running : (d : Daemon) → d.tunnel_running ≡ true → stop_begins d ≡ asked_to_stop d
unfolding stop_begins
stop_begins-running d r = if-true d.tunnel_running (asked_to_stop d) d r

-- What it is after the loop has returned because of that.
abbrev stopped_by_request : Daemon → Daemon
stopped_by_request d = record d {
  tunnel_running = false;
  loops = 0;
  st = stopped_state (at_rest d.st);
}

returns-asked :
    (d : Daemon) (n : ℕ)
    → n ≡ 1
    → d.cancelled ≡ true
    → d.explicit_stop ≡ true
    → loop_returns d n ≡ stopped_by_request d
unfolding loop_returns loop_over
returns-asked d zero one c e = absurd (omega (arith, one))
returns-asked d (suc zero) one c e =
    if-true (d.cancelled || d.shutting_down) (loop_over d 0) d (ground arith)
    ∙ if-true (d.explicit_stop || d.shutting_down) (stopped_by_request d)
        (record d {
          tunnel_running = false;
          loops = 0;
          restart_backoff = next_backoff d.restart_backoff;
          sleepers = suc d.sleepers;
        })
        (ground arith)
returns-asked d (suc (suc n)) one c e = absurd (omega (arith, one))

-- A stop in time: the loop returns while `stopTunnel` waits.
abbrev pub in_time : List LifeEvent
in_time = stop_called ∷ loop_returned ∷ stop_over ∷ []

stopped_in_time :
    (d : Daemon)
    → d.tunnel_running ≡ true
    → d.loops ≡ 1
    → life_run d in_time ≡ stop_ends (stopped_by_request (asked_to_stop d)) (suc d.stops)
unfolding life_run life_step
stopped_in_time d r one =
    ap (λ (x : Daemon). life_run x (loop_returned ∷ stop_over ∷ [])) (stop_begins-running d r)
    ∙ ap (λ (x : Daemon). life_run x (stop_over ∷ []))
        (returns-asked (asked_to_stop d) d.loops one refl refl)

start-selected :
    (d : Daemon) (now : ℕ) (latest : Option ProfilesFile) (sp : Profile)
    → d.tunnel_running ≡ false
    → selected_profile (reloaded d.file latest) ≡ some sp
    → start_tunnel d now latest
      ≡ start_with (record d { file = reloaded d.file latest }) now (some sp)
unfolding start_tunnel
start-selected d now latest sp off chosen =
    let file = reloaded d.file latest in
    if-false d.tunnel_running d (start_with (record d { file = file }) now (selected_profile file))
      off
    ∙ ap (start_with (record d { file = file }) now) chosen

-- Idle without a loop, and at work again after a start.
abbrev pub Restarts : Daemon → ℕ → Option ProfilesFile → Profile → Type 0
Restarts stopped now latest sp =
    let again = start_tunnel stopped now latest in
    (stopped.tunnel_running ≡ false)
    × (stopped.loops ≡ 0)
    × (stopped.st.state ≡ idle)
    × (stopped.st.connected ≡ false)
    × (again.tunnel_running ≡ true)
    × (again.loops ≡ 1)
    × (again.st.state ≡ starting)
    × (again.st.selected_profile ≡ sp.name)

Restarts-asked :
    (d : Daemon) (now : ℕ) (latest : Option ProfilesFile) (sp : Profile)
    → selected_profile (reloaded d.file latest) ≡ some sp
    → Restarts (stop_ends (stopped_by_request (asked_to_stop d)) (suc d.stops)) now latest sp
unfolding stop_ends start_with
Restarts-asked d now latest sp chosen =
    let over = stop_ends (stopped_by_request (asked_to_stop d)) (suc d.stops) in
    let e = start-selected over now latest sp refl chosen in
    (
      refl,
      refl,
      refl,
      refl,
      ap (λ (x : Daemon). x.tunnel_running) e,
      ap (λ (x : Daemon). x.loops) e,
      ap (λ (x : Daemon). x.st.state) e,
      ap (λ (x : Daemon). x.st.selected_profile) e,
    )

-- A tunnel that stops in time can be started again: from every state that the daemon reaches with a
-- loop inside `tunnelLoop`, a stop during which the loop returns leaves the daemon idle with no
-- loop, and a start then runs the profile that is selected in the file as it is read again.
pub stop_then_start :
    (file : ProfilesFile) (st : State) (vs : List LifeEvent) (now : ℕ)
    (latest : Option ProfilesFile) (sp : Profile)
    → (life_run (new_daemon file st) vs).loops ≡ 1
    → selected_profile (reloaded (life_run (new_daemon file st) vs).file latest) ≡ some sp
    → Restarts (life_run (life_run (new_daemon file st) vs) in_time) now latest sp
stop_then_start file st vs now latest sp one chosen =
    let d = life_run (new_daemon file st) vs in
    let running : d.tunnel_running ≡ true = ground (arith, (single-running vs file st).1) in
    subst (λ (x : Daemon). Restarts x now latest sp) (sym (stopped_in_time d running one))
      (Restarts-asked d now latest sp chosen)

-- A stop that gives up after five seconds, with the loop still there, and the start behind it; the
-- loop returns only after that.
abbrev pub too_late : ℕ → Option ProfilesFile → List LifeEvent
too_late now latest = stop_called ∷ stop_over ∷ start_called now latest ∷ loop_returned ∷ []

abbrev given_up : Daemon → Daemon
given_up d = stop_ends (asked_to_stop d) (suc d.stops)

late-run :
    (d : Daemon) (now : ℕ) (latest : Option ProfilesFile)
    → d.tunnel_running ≡ true
    → d.loops ≡ 1
    → life_run d (too_late now latest) ≡ stopped_by_request (given_up d)
unfolding life_run life_step stop_ends
late-run d now latest r one =
    ap (λ (x : Daemon). life_run x (stop_over ∷ start_called now latest ∷ loop_returned ∷ []))
      (stop_begins-running d r)
    ∙ ap (λ (x : Daemon). life_run x (loop_returned ∷ [])) (start-running (given_up d) now latest r)
    ∙ returns-asked (given_up d) d.loops one refl refl

-- A restart is lost when the loop takes longer than `stopTunnel` waits: from every state that the
-- daemon reaches with a loop inside `tunnelLoop`, the start behind that stop does nothing, and when
-- the loop returns the daemon is idle with no tunnel.
pub restart_lost :
    (file : ProfilesFile) (st : State) (vs : List LifeEvent) (now : ℕ)
    (latest : Option ProfilesFile)
    → (life_run (new_daemon file st) vs).loops ≡ 1
    → let d = life_run (life_run (new_daemon file st) vs) (too_late now latest) in
      (d.loops ≡ 0) × (d.tunnel_running ≡ false) × (d.st.state ≡ idle) × (d.st.running ≡ false)
unfolding stop_ends
restart_lost file st vs now latest one =
    let d = life_run (new_daemon file st) vs in
    let running : d.tunnel_running ≡ true = ground (arith, (single-running vs file st).1) in
    let e = late-run d now latest running one in
    (
      ap (λ (x : Daemon). x.loops) e,
      ap (λ (x : Daemon). x.tunnel_running) e,
      ap (λ (x : Daemon). x.st.state) e,
      ap (λ (x : Daemon). x.st.running) e,
    )
