-- ===== src/Tests/Daemon.antt =====
-- Examples for what the daemon does around the tunnel.
use sshcustom_vpnchain.Base.{
  ℕ, ◌+◌, ◌≡◌, refl, true, false, Option, none, some, List, [], ◌∷◌, Bytes, codes,
}
use sshcustom_vpnchain.Base.Res.{err}
use sshcustom_vpnchain.Config.Patch.{normalize_config, ConfigPatchRequest}
use sshcustom_vpnchain.Engine.State.{State}
use sshcustom_vpnchain.Profile.Select.{selected_profile}
use sshcustom_vpnchain.Daemon.Api.{
  Runtime, ConfigAccess, Method, get, post, patch, config_request, config_run, booted,
}
use sshcustom_vpnchain.Daemon.Api.Agreed.{
  Agreed, Truthful, config_run-Agreed, config_request-Truthful,
}
use sshcustom_vpnchain.Daemon.ModuleProp.{update_module_prop}
use sshcustom_vpnchain.Daemon.ModuleProp.Watch.{
  Seen, prop_seen, prop_run, prop_start, status_name, done, prop_run_settles,
}
use sshcustom_vpnchain.Daemon.PublicIp.{IpRequest, lookup_public_ips, lookup_run, empty_cache}
use sshcustom_vpnchain.Daemon.PublicIp.Fresh.{Fresh, lookup_run-Fresh}
use sshcustom_vpnchain.Tests.Data.{a_config, a_state, one_profile, online_route}
use sshcustom_vpnchain.Transport.{split_lines}
use sshcustom_vpnchain.Daemon.Route.{NetInterface, route_info}
use sshcustom_vpnchain.Net.HostPort.{split_host_port}

abbrev share_hotspot : ConfigPatchRequest
share_hotspot = record {
  hotspot = some (record { enabled = some true; tcp = none; dns = none; interfaces = [] });
  restart = true;
}

abbrev works : ConfigAccess
works = record { writes = true; renames = true }

-- The file that the daemon reads is not normalised.
abbrev at_start : Runtime
at_start = record {
  disk = a_config;
  cfg = normalize_config a_config;
  st = elim (booted true 5 online_route (some a_config) (some one_profile)) [
    | none ↦ a_state
    | some r ↦ r.st
  ];
}

abbrev requests : List (ConfigAccess × Method × Option ConfigPatchRequest)
requests =
    (record works { renames = false }, post, some share_hotspot)
    ∷ (works, patch, some share_hotspot)
    ∷ (works, post, none)
    ∷ []

config_run-Agreed_example : Agreed (config_run at_start requests)
unfolding booted selected_profile
config_run-Agreed_example =
    config_run-Agreed true 5 online_route (some a_config) (some one_profile) at_start requests refl

config_request-Truthful_example :
    Truthful
      (config_run at_start requests)
      (config_request works (config_run at_start requests) get none).0
      (config_request works (config_run at_start requests) get none).1
config_request-Truthful_example =
    config_request-Truthful works (config_run at_start requests) get none config_run-Agreed_example

abbrev prop_file : Bytes
prop_file = codes "id=sshcustom\ndescription=[OFF]\nauthor=x"

abbrev connected : State
connected = record a_state { connected = true; ssh_authenticated = true; running = true }

abbrev ended : State
ended = record a_state { connected = false; running = false }

-- The tunnel comes up, and is stopped one second later.
abbrev notified : List Seen
notified =
    record { now = 5000000000; st = connected; how = done }
    ∷ record { now = 6000000000; st = ended; how = done }
    ∷ []

prop_run_settles_example :
    (prop_seen
      (prop_run (prop_start prop_file) notified)
      (record { now = 10000000000; st = ended; how = done })).text
    ≡ update_module_prop done (status_name ended) prop_file
unfolding split_lines
prop_run_settles_example =
    prop_run_settles prop_file notified (record { now = 10000000000; st = ended; how = done }) refl
      refl refl refl

abbrev ip_request : ℕ → IpRequest
ip_request now = record {
  now = now;
  refresh = false;
  began = now;
  stored = now + 2000000000;
  socks_enabled = true;
  fetch = record { took_ms = 2000; body = err (codes "refused") };
}

lookup_run-Fresh_example :
    Fresh
      (ip_request 1 ∷ [])
      (ip_request 9000000000)
      (lookup_public_ips (lookup_run empty_cache (ip_request 1 ∷ [])) (ip_request 9000000000)).1
lookup_run-Fresh_example = lookup_run-Fresh (ip_request 1 ∷ []) (ip_request 9000000000)

-- The address of another interface begins with the phone's own.
abbrev interfaces : List NetInterface
interfaces =
    record { name = codes "rndis0"; addrs = codes "10.0.0.12/24" ∷ [] }
    ∷ record { name = codes "wlan0"; addrs = codes "10.0.0.1/24" ∷ [] }
    ∷ []

route_info_test :
    (route_info (some (codes "10.0.0.1:40000")) (some interfaces)).iface ≡ codes "rndis0"
unfolding route_info split_host_port
route_info_test = refl
