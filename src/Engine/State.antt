-- ===== src/Engine/State.antt =====
-- The daemon's `State` (main.go), with the two results that are copied into it. The lock is not
-- modelled: `set` runs its function as one step. Left out are the numbers that `applySample` writes,
-- the subscribers (Engine/Notify), and what is only passed on to the dashboard: `Phase`, `Version`,
-- `GOOS`, `GOARCH`, the paths, `Attempt`, `APIAddr`, `PoolLastError` and `Note`.
use sshcustom_vpnchain.Base.{ℕ, Bool, Option, List, ℤ, Bytes}

-- The texts that the field `State` takes.
pub data StateName : Type 0 where
  starting idle connecting_ssh paused_no_network retry_backoff connected_state reconnecting
        stopped :
      StateName

pub record RouteInfo : Type 0 where
  pub online : Bool
  pub raw : Bytes
  pub iface : Bytes
  pub gw : Bytes
  pub src : Bytes

pub record ProbeResult : Type 0 where
  pub banner : Bytes
  pub statuses : List ℤ
  pub preview : Bytes
  pub resolved_dial : Bytes
  pub resolver_method : Bytes
  pub resolved_ips : List Bytes

-- The fields that say where the tunnel stands, and what the dashboard shows of its pool.
pub record State : Type 0 where
  pub state : StateName
  pub running : Bool
  pub connected : Bool
  pub ssh_authenticated : Bool
  pub transport_ready : Bool
  pub started_at : ℕ
  pub tunnel_started_at : Option ℕ
  pub selected_profile : Bytes
  pub selected_mode : Bytes
  pub transport_chain : Bytes
  pub payload_enabled : Bool
  pub last_error : Bytes
  pub last_event : Bytes
  pub network_online : Bool
  pub default_route : Bytes
  pub interface : Bytes
  pub gateway : Bytes
  pub source_ip : Bytes
  pub hotspot_enabled : Bool
  pub socks_enabled : Bool
  pub socks_addr : Bytes
  pub socks_running : Bool
  pub transparent_enabled : Bool
  pub transparent_addr : Bytes
  pub transparent_running : Bool
  pub transparent_applied : Bool
  pub udp_proxy_enabled : Bool
  pub udp_proxy_running : Bool
  pub udpgw_port : ℤ
  pub hotspot_running : Bool
  pub remote_banner : Bytes
  pub http_statuses : List ℤ
  pub resolved_dial : Bytes
  pub resolver_method : Bytes
  pub resolved_ips : List Bytes
  pub dns_mode : Bytes
  pub dns_servers : List Bytes
  pub pool_size : ℕ
  pub pool_healthy : ℕ
  pub pool_reconnecting : ℕ
  pub pool_streams : ℕ
  pub pool_max_streams : ℕ

-- The part of `set` that copies what `routeInfo` found.
abbrev pub set_route : State → RouteInfo → State
set_route st ri = record st {
  network_online = ri.online;
  default_route = ri.raw;
  interface = ri.iface;
  gateway = ri.gw;
  source_ip = ri.src;
}

-- The part of `set` that copies what the last attempt to connect found.
abbrev pub set_probe : State → ProbeResult → State
set_probe st res = record st {
  remote_banner = res.banner;
  http_statuses = res.statuses;
  resolved_dial = res.resolved_dial;
  resolver_method = res.resolver_method;
  resolved_ips = res.resolved_ips;
}

-- `Connected`, `SSHAuthenticated` and `TransportReady` are set together.
abbrev pub set_link : State → Bool → State
set_link st up = record st { connected = up; ssh_authenticated = up; transport_ready = up }
