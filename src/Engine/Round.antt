-- ===== src/Engine/Round.antt =====
-- engine.go: `tunnelLoop`'s state, and its rounds: what the code does between two waits. Delays are
-- nanoseconds.
use sshcustom_vpnchain.Base.{
  ℕ, ◌*◌, ◌^◌, Bool, true, false, ◌&&◌, Option, none, some, List, [], ◌∷◌, ◌++◌, ltb, ◌==◌,
  if◌then◌else◌, magnitude, nonpositive, Bytes, codes,
}
use sshcustom_vpnchain.Base.Res.{Res, ok, err}
use sshcustom_vpnchain.Config.Data.{Config}
use sshcustom_vpnchain.Engine.State.{
  State, connecting_ssh, paused_no_network, retry_backoff, connected_state, reconnecting, RouteInfo,
  ProbeResult, set_route, set_probe, set_link,
}

abbrev pub second : ℕ
second = 10 ^ 9

-- `nextDelay`.
unfoldable pub next_delay : ℕ → ℕ → ℕ → ℕ
next_delay cur base max = if cur == 0 then base else if ltb max (cur * 2) then max else cur * 2

abbrev pub base_delay : ℕ
base_delay = 1 * second

abbrev pub max_delay : ℕ
max_delay = 30 * second

-- `waitDone`, a channel with one place, and the goroutine that sends on it once: it still waits for
-- the client to end, its value waits in the channel, or the value has been taken.
pub data WaitDone : Type 0 where
  pending : WaitDone
  full : Option Bytes → WaitDone
  drained : WaitDone

-- Where the loop stands: at the first `select`, at the one labelled `wait` with its client, at
-- `waitErr := <-waitDone` behind that, or returned.
pub data Phase : Type 0 where
  sleeping : Phase
  waiting : ℕ → Phase
  draining : ℕ → Phase
  returned : Phase

-- What the loop tells the shell about the routing rules.
pub data Script : Type 0 where
  enable disable : Script

-- `cleans` counts the runs of net_clean.sh, by which `stopTunnel` takes the rules down.
pub record Loop : Type 0 where
  pub phase : Phase
  pub cancelled : Bool
  pub delay : ℕ
  pub listeners_up : Bool
  pub iptables_up : Bool
  pub client : Option ℕ
  pub closed : List ℕ
  pub wait_done : WaitDone
  pub scripts : List Script
  pub cleans : ℕ
  pub st : State

-- What one round of the loop meets: the configuration, the route, how `attemptSSHAuth` ends (a
-- client's number or an error's text), and the error of the iptables script, if it fails.
pub record Round : Type 0 where
  pub cfg : Config
  pub route : RouteInfo
  pub auth : Res Bytes ℕ
  pub probe : ProbeResult
  pub script_error : Option Bytes

-- The routing rules, once the script has run.
unfoldable pub rules_up : Loop → Round → Option Bytes → Loop
rules_up l r (some e) = record l {
  scripts = l.scripts ++ enable ∷ [];
  st = record (l.st) { transparent_applied = false; last_error = codes "iptables failed: " ++ e };
}
rules_up l r none = record l {
  scripts = l.scripts ++ enable ∷ [];
  iptables_up = true;
  st = record (l.st) {
    transparent_applied = true;
    hotspot_running = r.cfg.hotspot.enabled && r.cfg.hotspot.tcp;
  };
}

-- `if listenerCancel == nil { ... }`: listeners and rules come up once.
unfoldable pub bring_up : Loop → Round → Loop
unfolding rules_up
bring_up l r =
    let opened = record l { listeners_up = true } in
    if l.listeners_up
    then l
    else if r.cfg.transparent_proxy.enabled
    then rules_up opened r r.script_error
    else opened

-- `attemptSSHAuth` failed.
unfoldable pub auth_failed : Loop → Round → Bytes → Loop
auth_failed l r e = record l {
  delay = next_delay l.delay base_delay max_delay;
  st =
      set_probe
        (record (set_link l.st false) {
          state = retry_backoff;
          pool_healthy = 0;
          last_error = e;
          last_event = codes "SSH auth failed; retrying";
        })
        r.probe;
}

-- `attemptSSHAuth` gave a client: the loop goes on to wait for it.
unfoldable pub auth_passed : Loop → Round → ℕ → Loop
auth_passed l r client =
    bring_up
      (record l {
        phase = waiting client;
        delay = base_delay;
        client = some client;
        wait_done = pending;
        st =
            set_probe
              (record (set_link l.st true) {
                state = connected_state;
                last_error = [];
                last_event =
                    codes "SSH connected; SOCKS5 + transparent TCP + DNS-through-tunnel active";
                pool_size = 1;
                pool_healthy = 1;
                pool_reconnecting = 0;
                pool_streams = 0;
              })
              r.probe;
      })
      r

unfoldable pub attempted : Loop → Round → Res Bytes ℕ → Loop
unfolding auth_failed auth_passed
attempted l r (err e) = auth_failed l r e
attempted l r (ok client) = auth_passed l r client

abbrev pub dialling : Loop → Loop
dialling l = record l {
  st = record (l.st) {
    state = connecting_ssh;
    last_event = codes "opening transport and authenticating SSH";
    last_error = [];
  };
}

-- The route is there: an attempt to connect.
unfoldable pub connect : Loop → Round → Loop
unfolding attempted
connect l r = attempted (dialling l) r r.auth

-- The network is offline: no attempt, and five seconds of pause.
unfoldable pub pause : Loop → Loop
pause l = record l {
  delay = 5 * second;
  st = record (set_link l.st false) {
    state = paused_no_network;
    pool_healthy = 0;
    last_event = codes "network offline; reconnect paused";
  };
}

unfoldable pub routed : Loop → Round → Bool → Loop
unfolding connect pause
routed l r true = connect l r
routed l r false = pause l

abbrev pub seen : Loop → RouteInfo → Loop
seen l ri = record l { st = set_route l.st ri }

-- A round, from the timer to where the loop waits again.
unfoldable pub round : Loop → Round → Loop
unfolding routed
round l r = routed (seen l r.route) r r.route.online

-- `teardown`, which the loop defers.
unfoldable pub teardown : Loop → Loop
teardown l =
    let quiet = record l { phase = returned; listeners_up = false; client = none } in
    if l.cancelled
    then quiet
    else if l.iptables_up
    then record quiet { scripts = l.scripts ++ disable ∷ []; iptables_up = false }
    else quiet

-- `maxStreams`, and the statistics of a tick.
unfoldable pub tick : Loop → RouteInfo → ℕ → Config → Loop
tick l ri streams cfg = record l {
  st =
      set_route
        (record (l.st) {
          pool_streams = streams;
          pool_max_streams =
              if nonpositive cfg.performance.max_streams_per_ssh
              then 64
              else magnitude cfg.performance.max_streams_per_ssh;
        })
        ri;
}

-- From behind `waitErr := <-waitDone` to the next round.
unfoldable pub lost : Loop → ℕ → Loop
lost l client = record l {
  phase = sleeping;
  delay = base_delay;
  client = none;
  closed = client ∷ l.closed;
  wait_done = drained;
  st = record (set_link l.st false) {
    state = reconnecting;
    pool_healthy = 0;
    pool_reconnecting = 1;
    pool_streams = 0;
    last_event = codes "SSH connection lost; reconnecting (routing kept up)";
  };
}
