-- ===== src/Tests/Data.antt =====
-- A configuration and a state of the daemon for the examples.
use sshcustom_vpnchain.Base.{true, false, some, [], ◌∷◌, pos, codes}
use sshcustom_vpnchain.Config.Data.{Config}
use sshcustom_vpnchain.Engine.State.{State, RouteInfo, ProbeResult, starting}
use sshcustom_vpnchain.Profile.Data.{Ssh, PayloadCfg, Profile, ProfilesFile}
use sshcustom_vpnchain.Profile.Transport.{build_transport}
use sshcustom_vpnchain.Base.{pos, none, codes, ◌∷◌}

abbrev pub a_config : Config
a_config = record {
  module_info = record {
    name = codes "sshcustom";
    work_dir = [];
    log_dir = [];
    manual_start = false;
  };
  api = record { enabled = true; host = codes "127.0.0.1"; port = pos 9190 };
  dns = record {
    enabled = true;
    mode = codes "google";
    servers = codes "8.8.8.8" ∷ [];
    timeout_sec = pos 0;
  };
  supported_modes = [];
  local_proxy = record { socks_enabled = true; socks_host = []; socks_port = pos 0 };
  transparent_proxy = record {
    enabled = true;
    tcp_port = pos 10810;
    udp_port = pos 10811;
    udpgw_port = pos 7300;
    chains_prefix = [];
  };
  udp_proxy = record { enabled = true; udpgw_port = pos 7300 };
  hotspot = record { enabled = false; tcp = true; dns = true; interfaces = [] };
  performance = record {
    buffer_size = pos 100000;
    connect_timeout_sec = pos 0;
    keep_alive_sec = pos 0;
    ssh_pool_size = pos 1;
    max_streams_per_ssh = pos 0;
    stream_idle_timeout_sec = pos 10;
    stream_acquire_timeout_sec = pos 0;
    verbose_transparent_logs = false;
    retry_initial_delay_sec = pos 0;
    retry_max_delay_sec = pos 0;
    read_probe_timeout_sec = pos 0;
  };
}

abbrev pub a_state : State
a_state = record {
  state = starting;
  running = true;
  connected = false;
  ssh_authenticated = false;
  transport_ready = false;
  started_at = 0;
  tunnel_started_at = some 1;
  selected_profile = codes "Home";
  selected_mode = codes "direct";
  transport_chain = codes "tcp -> ssh";
  payload_enabled = false;
  last_error = [];
  last_event = [];
  network_online = false;
  default_route = [];
  interface = [];
  gateway = [];
  source_ip = [];
  hotspot_enabled = false;
  socks_enabled = true;
  socks_addr = codes "127.0.0.1:1080";
  socks_running = false;
  transparent_enabled = true;
  transparent_addr = [];
  transparent_running = false;
  transparent_applied = false;
  udp_proxy_enabled = true;
  udp_proxy_running = false;
  udpgw_port = pos 7300;
  hotspot_running = false;
  remote_banner = [];
  http_statuses = [];
  resolved_dial = [];
  resolver_method = [];
  resolved_ips = [];
  dns_mode = codes "device";
  dns_servers = [];
  pool_size = 0;
  pool_healthy = 0;
  pool_reconnecting = 0;
  pool_streams = 0;
  pool_max_streams = 0;
}

abbrev pub online_route : RouteInfo
online_route = record {
  online = true;
  raw = [];
  iface = codes "wlan0";
  gw = codes "192.168.0.1";
  src = codes "192.168.0.7";
}

abbrev pub a_probe : ProbeResult
a_probe = record {
  banner = [];
  statuses = [];
  preview = [];
  resolved_dial = [];
  resolver_method = [];
  resolved_ips = [];
}

abbrev pub no_payload : PayloadCfg
no_payload = record {
  enabled = false;
  template = [];
  send_timing = [];
  read_response = false;
  allow_statuses = [];
}

abbrev pub home_ssh : Ssh
home_ssh = record {
  host = codes "ssh.home";
  port = pos 22;
  username = codes "me";
  password = codes "secret";
  auth_type = codes "password";
  fallback_ips = [];
}

abbrev pub home : Profile
home = record {
  id = codes "home";
  name = codes "Home";
  selected = false;
  ssh = home_ssh;
  transport = build_transport (codes "direct") no_payload none none home_ssh;
}

abbrev pub one_profile : ProfilesFile
one_profile = record { selected_id = []; profiles = home ∷ [] }
