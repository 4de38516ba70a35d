-- ===== src/Daemon/Api.antt =====
-- cmd/sshcustomd/main.go, in `run`: the configuration that the daemon holds, `saveRuntimeConfig`,
-- and the handlers of /api/v1/config, /api/v1/control and the clearing of a log. What decoding a
-- body gives, and how the accesses to files end, are arguments.
pub mod Agreed
use sshcustom_vpnchain.Base.{
  ℕ, Bool, false, not, ◌&&◌, Option, none, some, List, [], ◌∷◌, if◌then◌else◌, is_some, pos, Bytes,
  codes,
}
use sshcustom_vpnchain.Base.Text.{join}
use sshcustom_vpnchain.Config.Data.{Config}
use sshcustom_vpnchain.Config.{socks_addr, transparent_addr}
use sshcustom_vpnchain.Config.Patch.{
  normalize_config, ConfigPatchRequest, PatchResult, apply_config_patch,
}
use sshcustom_vpnchain.Engine.State.{State, starting, idle, RouteInfo}
use sshcustom_vpnchain.Profile.Data.{Profile}
use sshcustom_vpnchain.Profile.Data.{ProfilesFile}
use sshcustom_vpnchain.Profile.Select.{selected_profile}

-- config.json, the `cfg` of the daemon, and its state.
pub record Runtime : Type 0 where
  pub disk : Config
  pub cfg : Config
  pub st : State

-- How the two steps of `saveConfig` end.
pub record ConfigAccess : Type 0 where
  pub writes : Bool
  pub renames : Bool

abbrev pub is_stored : ConfigAccess → Bool
is_stored a = a.writes && a.renames

-- The fields of the state that repeat the configuration.
unfoldable pub show_config : State → Config → State
show_config st next = record st {
  hotspot_enabled = next.hotspot.enabled;
  socks_enabled = next.local_proxy.socks_enabled;
  socks_addr = socks_addr next;
  transparent_enabled = next.transparent_proxy.enabled;
  transparent_addr = transparent_addr next;
  udp_proxy_enabled = next.udp_proxy.enabled;
  udpgw_port = next.udp_proxy.udpgw_port;
  dns_mode = next.dns.mode;
  dns_servers = next.dns.servers;
}

-- `saveConfig`: `none` is that it returns an error.
unfoldable pub save_config : ConfigAccess → Config → Option Config
save_config a cfg = if is_stored a then some cfg else none

saved_as : Runtime → Config → Option Config → Option Runtime
saved_as r next none = none
saved_as r next (some disk) = some (record {
  disk = disk;
  cfg = next;
  st = record (show_config r.st next) {
    last_event = codes "configuration updated; restart may be required";
  };
})

-- `saveRuntimeConfig`.
unfoldable pub save_runtime_config : ConfigAccess → Runtime → Config → Option Runtime
unfolding saved_as
save_runtime_config a r next =
    saved_as r (normalize_config next) (save_config a (normalize_config next))

pub data Method : Type 0 where
  get post patch other_method : Method

-- `apiv1.ConfigUpdateResponse`.
pub record ConfigUpdateResponse : Type 0 where
  pub config : Config
  pub restart : Bool
  pub restart_pending : Bool
  pub changed : List Bytes

-- The configuration, the response to an update, or an error with its status.
pub data ConfigAnswer : Type 0 where
  config_shown : Config → ConfigAnswer
  config_updated : ConfigUpdateResponse → ConfigAnswer
  config_refused : ℕ → ConfigAnswer

update_answer : Runtime → ConfigPatchRequest → PatchResult → Option Runtime → Runtime × ConfigAnswer
update_answer r req p none = (r, config_refused 500)
update_answer r req p (some updated) = (
  updated,
  config_updated (record {
    config = p.next;
    restart = req.restart;
    restart_pending = req.restart && p.restart_required;
    changed = p.changed;
  }),
)

-- A POST or PATCH of /api/v1/config; `none` is a body that does not decode.
unfoldable pub update_config :
    ConfigAccess → Runtime → Option ConfigPatchRequest → Runtime × ConfigAnswer
unfolding update_answer
update_config a r none = (r, config_refused 400)
update_config a r (some req) =
    let p = apply_config_patch r.cfg req in update_answer r req p (save_runtime_config a r p.next)

-- The handler of /api/v1/config. `stopTunnel` and then `startTunnel` run when `restart_pending` is set.
unfoldable pub config_request :
    ConfigAccess → Runtime → Method → Option ConfigPatchRequest → Runtime × ConfigAnswer
config_request a r get body = (r, config_shown r.cfg)
config_request a r post body = update_config a r body
config_request a r patch body = update_config a r body
config_request a r other_method body = (r, config_refused 405)

-- A series of requests, each with how its accesses end.
unfoldable pub config_run :
    Runtime → List (ConfigAccess × Method × Option ConfigPatchRequest) → Runtime
config_run r [] = r
config_run r ((a, m, body) ∷ rest) = config_run (config_request a r m body).0 rest

-- The profile's fields of the first state, without a profile and with one.
of_profile : Option Profile → State → State
of_profile none st = record st {
  selected_profile = [];
  selected_mode = [];
  transport_chain = [];
  payload_enabled = false;
}
of_profile (some sp) st = record st {
  selected_profile = sp.name;
  selected_mode = sp.transport.mode;
  transport_chain = join sp.transport.chain (codes " -> ");
  payload_enabled = sp.transport.payload.enabled;
}

-- Go's zero value of the state.
abbrev pub no_state : State
no_state = record {
  state = idle;
  running = false;
  connected = false;
  ssh_authenticated = false;
  transport_ready = false;
  started_at = 0;
  tunnel_started_at = none;
  selected_profile = [];
  selected_mode = [];
  transport_chain = [];
  payload_enabled = false;
  last_error = [];
  last_event = [];
  network_online = false;
  default_route = [];
  interface = [];
  gateway = [];
  source_ip = [];
  hotspot_enabled = false;
  socks_enabled = false;
  socks_addr = [];
  socks_running = false;
  transparent_enabled = false;
  transparent_addr = [];
  transparent_running = false;
  transparent_applied = false;
  udp_proxy_enabled = false;
  udp_proxy_running = false;
  udpgw_port = pos 0;
  hotspot_running = false;
  remote_banner = [];
  http_statuses = [];
  resolved_dial = [];
  resolver_method = [];
  resolved_ips = [];
  dns_mode = [];
  dns_servers = [];
  pool_size = 0;
  pool_healthy = 0;
  pool_reconnecting = 0;
  pool_streams = 0;
  pool_max_streams = 0;
}

-- The state that `run` builds, with the configuration that it has read and normalised.
unfoldable pub initial_state : Bool → ℕ → RouteInfo → Config → Option Profile → State
unfolding of_profile show_config
initial_state idle_mode now ri cfg sp =
    let shown = show_config (of_profile sp no_state) cfg in
    record shown {
      state = if idle_mode then idle else starting;
      running = not idle_mode;
      started_at = now;
      network_online = ri.online;
      default_route = ri.raw;
      interface = ri.iface;
      gateway = ri.gw;
      source_ip = ri.src;
    }

boot_with : Bool → ℕ → RouteInfo → Config → Option Profile → Option Runtime
boot_with idle_mode now ri disk sp =
    if not (is_some sp) && not idle_mode
    then none
    else some (record {
      disk = disk;
      cfg = normalize_config disk;
      st = initial_state idle_mode now ri (normalize_config disk) sp;
    })

-- What `run` starts from, on the two files that it reads; `none` is that it ends with a message.
unfoldable pub booted : Bool → ℕ → RouteInfo → Option Config → Option ProfilesFile → Option Runtime
unfolding boot_with
booted idle_mode now ri none pf = none
booted idle_mode now ri (some disk) none = none
booted idle_mode now ri (some disk) (some pf) =
    boot_with idle_mode now ri disk (selected_profile pf)
