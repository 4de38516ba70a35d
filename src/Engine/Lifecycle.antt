-- ===== src/Engine/Lifecycle.antt =====
-- main.go, in `run`: `startTunnel` and `stopTunnel`, the goroutine that runs `tunnelLoop` between them,
-- and their variables. The goroutines are interleaved as events; `stopTunnel` is two of them, with
-- its wait (for the goroutine, or for five seconds) in between. A call of `startTunnel` is one event here;
-- Overlap takes it apart, since nothing locks it. Times are nanoseconds.
pub mod Single
pub mod Restart
pub mod Wedged
pub mod Overlap
use sshcustom_vpnchain.Base.{
  ℕ, zero, suc, ◌*◌, Bool, true, false, ◌||◌, Option, none, some, List, [], ◌∷◌, ltb, ◌==◌,
  if◌then◌else◌, codes,
}
use sshcustom_vpnchain.Base.Text.{join}
use sshcustom_vpnchain.Profile.Data.{Profile, ProfilesFile}
use sshcustom_vpnchain.Profile.Select.{selected_profile}
use sshcustom_vpnchain.Engine.State.{State, StateName, starting, idle}
use sshcustom_vpnchain.Engine.Loop.{second}

-- `loops` counts the goroutines inside `tunnelLoop`, `sleepers` those that wait to start it again;
-- `stops` counts the calls of `stopTunnel` that wait. `cancelled` is that of the last context.
pub record Daemon : Type 0 where
  pub tunnel_running : Bool
  pub explicit_stop : Bool
  pub restart_backoff : ℕ
  pub cancelled : Bool
  pub shutting_down : Bool
  pub loops : ℕ
  pub sleepers : ℕ
  pub stops : ℕ
  pub file : ProfilesFile
  pub st : State

abbrev pub new_daemon : ProfilesFile → State → Daemon
new_daemon file st = record {
  tunnel_running = false;
  explicit_stop = false;
  restart_backoff = 0;
  cancelled = false;
  shutting_down = false;
  loops = 0;
  sleepers = 0;
  stops = 0;
  file = file;
  st = st;
}

-- `if err == nil { pf = latest }`.
abbrev pub reloaded : ProfilesFile → Option ProfilesFile → ProfilesFile
reloaded file none = file
reloaded file (some latest) = latest

-- `startTunnel` without a selected profile, and with one.
unfoldable pub start_with : Daemon → ℕ → Option Profile → Daemon
start_with d now none = record d {
  st = record (d.st) {
    last_error = codes "no selected profile";
    last_event = codes "cannot start tunnel: no profile selected";
  };
}
start_with d now (some sp) = record d {
  tunnel_running = true;
  explicit_stop = false;
  restart_backoff = 0;
  cancelled = false;
  loops = suc d.loops;
  st = record (d.st) {
    running = true;
    state = starting;
    tunnel_started_at = some now;
    selected_profile = sp.name;
    selected_mode = sp.transport.mode;
    transport_chain = join sp.transport.chain (codes " -> ");
    payload_enabled = sp.transport.payload.enabled;
    last_event = codes "tunnel starting";
    last_error = [];
  };
}

-- `startTunnel`; `latest` is what `loadProfiles` reads, if it does.
unfoldable pub start_tunnel : Daemon → ℕ → Option ProfilesFile → Daemon
unfolding start_with
start_tunnel d now latest =
    let file = reloaded d.file latest in
    let started = start_with (record d { file = file }) now (selected_profile file) in
    if d.tunnel_running then d else started

-- `stopTunnel` up to its wait, and behind it.
unfoldable pub stop_begins : Daemon → Daemon
stop_begins d =
    if d.tunnel_running
    then record d { explicit_stop = true; cancelled = true; stops = suc d.stops }
    else d

-- The link, the pool and the times of a tunnel that is over.
abbrev pub at_rest : State → State
at_rest st = record st {
  running = false;
  connected = false;
  ssh_authenticated = false;
  transport_ready = false;
  tunnel_started_at = none;
}

abbrev pub is_idle : StateName → Bool
is_idle idle = true
is_idle _ = false

unfoldable pub stop_ends : Daemon → ℕ → Daemon
stop_ends d zero = d
stop_ends d (suc n) = record d {
  stops = n;
  st = record (at_rest d.st) {
    state = idle;
    last_event = codes "tunnel stopped and rules cleaned";
    last_error = [];
    pool_size = 0;
    pool_healthy = 0;
    pool_reconnecting = 0;
    pool_streams = 0;
  };
}

-- `if state.State != "IDLE" { ... }`.
abbrev pub stopped_state : State → State
stopped_state st =
    if is_idle st.state then st else record st { state = idle; last_event = codes "tunnel stopped" }

-- The backoff before the next start, and what it becomes.
abbrev pub this_backoff : ℕ → ℕ
this_backoff b = if b == 0 then 2 * second else b

abbrev pub next_backoff : ℕ → ℕ
next_backoff b = if ltb (60 * second) (this_backoff b * 2) then 60 * second else this_backoff b * 2

-- The goroutine once `tunnelLoop` has returned.
unfoldable pub loop_over : Daemon → ℕ → Daemon
loop_over d n =
    if d.explicit_stop || d.shutting_down
    then record d { tunnel_running = false; loops = n; st = stopped_state (at_rest d.st) }
    else record d {
      tunnel_running = false;
      loops = n;
      restart_backoff = next_backoff d.restart_backoff;
      sleepers = suc d.sleepers;
    }

-- `tunnelLoop` returns only when its context is cancelled (a panic apart).
unfoldable pub loop_returns : Daemon → ℕ → Daemon
unfolding loop_over
loop_returns d zero = d
loop_returns d (suc n) = if d.cancelled || d.shutting_down then loop_over d n else d

-- A panic that the goroutine recovers: nothing behind the call of `tunnelLoop` is run.
abbrev pub loop_panics : Daemon → ℕ → Daemon
loop_panics d zero = d
loop_panics d (suc n) = record d { loops = n }

-- The end of the sleep before an automatic restart.
unfoldable pub sleeper_wakes : Daemon → ℕ → Option ProfilesFile → ℕ → Daemon
unfolding start_tunnel
sleeper_wakes d now latest zero = d
sleeper_wakes d now latest (suc n) =
    let awake = record d { sleepers = n } in
    if d.shutting_down || d.explicit_stop then awake else start_tunnel awake now latest

pub data LifeEvent : Type 0 where
  start_called : ℕ → Option ProfilesFile → LifeEvent
  stop_called stop_over : LifeEvent
  loop_returned loop_panicked : LifeEvent
  slept : ℕ → Option ProfilesFile → LifeEvent
  shutdown : LifeEvent

-- One event; one that cannot happen changes nothing.
unfoldable pub life_step : Daemon → LifeEvent → Daemon
unfolding start_tunnel stop_begins stop_ends loop_returns sleeper_wakes
life_step d (start_called now latest) = start_tunnel d now latest
life_step d stop_called = stop_begins d
life_step d stop_over = stop_ends d d.stops
life_step d loop_returned = loop_returns d d.loops
life_step d loop_panicked = loop_panics d d.loops
life_step d (slept now latest) = sleeper_wakes d now latest d.sleepers
life_step d shutdown = record d { shutting_down = true }

unfoldable pub life_run : Daemon → List LifeEvent → Daemon
life_run d [] = d
life_run d (v ∷ vs) = life_run (life_step d v) vs
