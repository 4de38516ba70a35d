-- ===== src/Engine/Loop.antt =====
-- engine.go: `tunnelLoop`, as a machine that stops where the code waits: at the two `select`s and
-- at the receive behind the second one. An input says what happens next: a timer fires, the
-- context is cancelled, the goroutine that waits for the client sends. `advance` is `none` where
-- the code does not get on by that input. Delays are nanoseconds.
pub mod Stuck
pub mod FailClosed
pub mod Backoff
pub mod Returns
use sshcustom_vpnchain.Base.{
  ℕ, true, false, Option, none, some, List, [], ◌∷◌, if◌then◌else◌, Bytes,
}
use sshcustom_vpnchain.Config.Data.{Config}
use sshcustom_vpnchain.Engine.State.{State, RouteInfo}
unfoldable pub use sshcustom_vpnchain.Engine.Round.{
  next_delay, rules_up, bring_up, auth_failed, auth_passed, attempted, connect, pause, routed,
  round, teardown, tick, lost,
}
pub use sshcustom_vpnchain.Engine.Round.{
  second, base_delay, max_delay, WaitDone, Phase, Script, Loop, Round, dialling, seen, pending,
  full, drained, sleeping, waiting, draining, returned, enable, disable,
}
use sshcustom_vpnchain.Base.{suc, codes}
use sshcustom_vpnchain.Engine.State.{idle, stopped, set_link}

-- What may happen.
pub data Input : Type 0 where
  -- The context is cancelled; the `case <-ctx.Done()` of the `select` at hand is taken.
  cancel see_cancel : Input
  -- `time.After(delay)` fires.
  timer : Round → Input
  -- `tc.Wait()` returns and its goroutine sends what it returned.
  client_ends : Option Bytes → Input
  -- The loop receives from `waitDone`.
  receive : Input
  -- The health ticker fires.
  health : RouteInfo → ℕ → Config → Input
  -- The code panics; the deferred `teardown` runs and `startTunnel` recovers.
  panic : Input
  -- Another goroutine stores `nil` in the client pointer, as `stopTunnel` does.
  clear_client : Input
  -- `stopTunnel` is done with its wait: it cleans the rules and writes the state. The end of `run`
  -- writes the state. Both come behind the cancellation of the context.
  stop_over shutdown_over : Input

-- `tc.Wait()` returns at most once.
client_sends : Loop → Option Bytes → WaitDone → Option Loop
client_sends l e pending = some (record l { wait_done = full e })
client_sends l e _ = none

-- A receive from `waitDone` at `wait` and behind it.
receive_at : Loop → Phase → WaitDone → Option Loop
unfolding lost
receive_at l (waiting client) (full e) =
    some (record l { phase = draining client; wait_done = drained })
receive_at l (draining client) (full e) = some (lost l client)
receive_at l _ _ = none

see_cancel_at : Loop → Phase → Option Loop
unfolding teardown
see_cancel_at l sleeping = some (teardown l)
see_cancel_at l (waiting client) =
    some (teardown (record l { closed = client ∷ l.closed; client = none }))
see_cancel_at l _ = none

timer_at : Loop → Round → Phase → Option Loop
unfolding round
timer_at l r sleeping = some (round l r)
timer_at l r _ = none

health_at : Loop → RouteInfo → ℕ → Config → Phase → Option Loop
unfolding tick
health_at l ri streams cfg (waiting client) = some (tick l ri streams cfg)
health_at l ri streams cfg _ = none

-- A receive that blocks cannot panic.
panic_at : Loop → Phase → Option Loop
unfolding teardown
panic_at l sleeping = some (teardown l)
panic_at l (waiting client) = some (teardown l)
panic_at l _ = none

-- What `stopTunnel` does behind its wait.
stopped_over : Loop → Loop
stopped_over l = record l {
  cleans = suc l.cleans;
  st = record (set_link l.st false) {
    running = false;
    state = idle;
    last_event = codes "tunnel stopped and rules cleaned";
    last_error = [];
    tunnel_started_at = none;
    pool_size = 0;
    pool_healthy = 0;
    pool_reconnecting = 0;
    pool_streams = 0;
  };
}

-- What `run` does at its end; the flag of the authentication stays.
shut_down_over : Loop → Loop
shut_down_over l = record l {
  st = record (l.st) {
    state = stopped;
    running = false;
    connected = false;
    transport_ready = false;
  };
}

-- One step of `tunnelLoop` and of what runs beside it.
unfoldable pub advance : Loop → Input → Option Loop
unfolding client_sends receive_at see_cancel_at timer_at health_at panic_at bring_up stopped_over
    shut_down_over
advance l cancel = some (record l { cancelled = true })
advance l see_cancel = if l.cancelled then see_cancel_at l l.phase else none
advance l (timer r) = timer_at l r l.phase
advance l (client_ends e) = client_sends l e l.wait_done
advance l receive = receive_at l l.phase l.wait_done
advance l (health ri streams cfg) = health_at l ri streams cfg l.phase
advance l panic = panic_at l l.phase
advance l clear_client = some (record l { client = none })
advance l stop_over = if l.cancelled then some (stopped_over l) else none
advance l shutdown_over = if l.cancelled then some (shut_down_over l) else none

-- The loop as it starts, in a daemon whose state is `st`.
abbrev pub start : State → Loop
start st = record {
  phase = sleeping;
  cancelled = false;
  delay = 0;
  listeners_up = false;
  iptables_up = false;
  client = none;
  closed = [];
  wait_done = drained;
  scripts = [];
  cleans = 0;
  st = st;
}

abbrev pub after : Loop → Option Loop → Loop
after l none = l
after l (some l') = l'

-- What the loop has come to after a list of inputs; one that does not fit is passed over.
unfoldable pub run : Loop → List Input → Loop
run l [] = l
run l (i ∷ is) = run (after l (advance l i)) is
