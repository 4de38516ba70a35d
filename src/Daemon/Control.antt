-- ===== src/Daemon/Control.antt =====
-- cmd/sshcustomd/main.go: handlers that pass a command on: /api/v1/control, /api/v1/vpnchain/,
-- /api/v1/autostart, the clearing of a log, the target of /api/v1/latency; the capabilities that
-- are shown; and `validate`. What decoding a body gives, and how a script and the accesses to files
-- end, are arguments.
use sshcustom_vpnchain.Base.{
  ℕ, Bool, true, false, not, ◌&&◌, ◌||◌, Option, none, some, List, [], ◌∷◌, ◌++◌, map,
  if◌then◌else◌, is_empty, keep, nonpositive, Bytes, codes, str_eq,
}
use sshcustom_vpnchain.Base.Text.{trim_space, to_lower}
use sshcustom_vpnchain.Base.Res.{Res, ok, err}
use sshcustom_vpnchain.Config.Data.{Config}
use sshcustom_vpnchain.Profile.Data.{Profile, ProfilesFile}
use sshcustom_vpnchain.Profile.Select.{selected_profile}
use sshcustom_vpnchain.Transport.{split_lines}

-- The methods that these handlers tell apart.
pub data Verb : Type 0 where
  get_verb post_verb put_verb other_verb : Verb

abbrev is_post : Verb → Bool
is_post post_verb = true
is_post _ = false

-- An error answer: its status and its text.
pub record ApiError : Type 0 where
  pub status : ℕ
  pub text : Bytes

abbrev pub api_error : ℕ → Bytes → ApiError
api_error status text = record { status = status; text = text }

-- What the handler of /api/v1/control starts: `startTunnel`, `stopTunnel`, or the two in a row.
pub data Command : Type 0 where
  start_command stop_command restart_command : Command

-- The action of a request, without its case and the white space around it.
unfoldable pub command_of : Bytes → Option Command
command_of action =
    let name = trim_space (to_lower action) in
    if str_eq name (codes "start")
    then some start_command
    else if str_eq name (codes "stop")
    then some stop_command
    else if str_eq name (codes "restart")
    then some restart_command
    else none

commanded : Bytes → Option Command → Res ApiError Command
commanded action none = err (api_error 400 (codes "unsupported action: " ++ action))
commanded action (some c) = ok c

control_body : Res Bytes Bytes → Res ApiError Command
unfolding commanded
control_body (err e) = err (api_error 400 e)
control_body (ok action) = commanded action (command_of action)

-- The handler of /api/v1/control.
unfoldable pub control_request : Verb → Res Bytes Bytes → Res ApiError Command
unfolding control_body
control_request v body =
    if is_post v then control_body body else err (api_error 405 (codes "POST required"))

-- `strings.TrimSpace(r.URL.Query().Get("target"))` with its default.
unfoldable pub latency_target : Bytes → Bytes
latency_target given =
    if is_empty (trim_space given) then codes "www.google.com:443" else trim_space given

-- `clearLog`: the log after it; the option is the error of opening it for truncation.
unfoldable pub clear_log : Verb → Option Bytes → Bytes → Bytes × Option ApiError
clear_log v none content =
    if is_post v then ([], none) else (content, some (api_error 405 (codes "POST required")))
clear_log v (some e) content =
    (content, some (if is_post v then api_error 500 e else api_error 405 (codes "POST required")))

-- A run of vpnchain.sh.
pub record ScriptRun : Type 0 where
  pub failure : Option Bytes
  pub stdout : Bytes
  pub stderr : Bytes

abbrev or_text : Bytes → Bytes → Bytes
or_text a b = if is_empty a then b else a

-- `vpnchainRun`: what it makes of a run of the script.
unfoldable pub vpnchain_result : ScriptRun → Option Bytes → Res Bytes Bytes
vpnchain_result r none = ok (trim_space r.stdout)
vpnchain_result r (some e) = err (or_text (trim_space r.stderr) (or_text (trim_space r.stdout) e))

abbrev pub vpnchain_run : ScriptRun → Res Bytes Bytes
vpnchain_run r = vpnchain_result r r.failure

script_answer : Res Bytes Bytes → Res ApiError Bytes
script_answer (err e) = err (api_error 500 e)
script_answer (ok out) = ok out

located : (Bytes → ScriptRun) → Res Bytes Bytes → Res ApiError Bytes
unfolding script_answer vpnchain_result
located script (err e) = err (api_error 400 e)
located script (ok location) =
    if is_empty location
    then err (api_error 400 (codes "location is required"))
    else script_answer (vpnchain_run (script location))

-- The handlers of /api/v1/vpnchain/start and /api/v1/vpnchain/switch, which differ in the script's
-- first argument.
unfoldable pub vpnchain_request : (Bytes → ScriptRun) → Verb → Res Bytes Bytes → Res ApiError Bytes
unfolding located
vpnchain_request script v body =
    if is_post v then located script body else err (api_error 405 (codes "POST required"))

-- The handler of /api/v1/vpnchain/stop.
unfoldable pub vpnchain_stop : ScriptRun → Verb → Res ApiError Bytes
unfolding script_answer vpnchain_result
vpnchain_stop r v =
    if is_post v
    then script_answer (vpnchain_run r)
    else err (api_error 405 (codes "POST required"))

lines_of : Res Bytes Bytes → List Bytes
lines_of (err e) = []
lines_of (ok out) = keep (λ l. not (is_empty l)) (map trim_space (split_lines out))

-- The handler of /api/v1/vpnchain/locations.
unfoldable pub vpnchain_locations : ScriptRun → List Bytes
unfolding lines_of vpnchain_result
vpnchain_locations r = lines_of (vpnchain_run r)

-- The errors of writing the marker and of removing it, other than that it is not there, and whether
-- the marker exists after them.
pub record MarkerAccess : Type 0 where
  pub write_error : Option Bytes
  pub remove_error : Option Bytes
  pub left : Bool

marker_done : Bool → Bool → Option Bytes → Bool × Res ApiError Bool
marker_done left enabled none = (enabled, ok enabled)
marker_done left enabled (some e) = (left, err (api_error 500 e))

marker_set : MarkerAccess → Bool → Res Bytes Bool → Bool × Res ApiError Bool
unfolding marker_done
marker_set a exists (err e) = (exists, err (api_error 400 e))
marker_set a exists (ok enabled) =
    marker_done a.left enabled (if enabled then a.write_error else a.remove_error)

-- The handler of /api/v1/autostart: whether the marker exists after it, and the answer.
unfoldable pub autostart_request :
    MarkerAccess → Bool → Verb → Res Bytes Bool → Bool × Res ApiError Bool
unfolding marker_set
autostart_request a exists get_verb body = (exists, ok exists)
autostart_request a exists post_verb body = marker_set a exists body
autostart_request a exists put_verb body = marker_set a exists body
autostart_request a exists other_verb body =
    (exists, err (api_error 405 (codes "GET, POST, or PUT required")))

-- `apiCapabilities`, without the descriptions.
unfoldable pub api_capabilities : Config → List (Bytes × Bool)
api_capabilities cfg =
    (codes "manual_start", cfg.module_info.manual_start)
    ∷ (codes "ipv4_transparent_tcp", cfg.transparent_proxy.enabled)
    ∷ (codes "hotspot_tcp_share", cfg.hotspot.enabled && cfg.hotspot.tcp)
    ∷ (codes "socks5", cfg.local_proxy.socks_enabled)
    ∷ (codes "quic_block", cfg.transparent_proxy.enabled)
    ∷ (codes "ipv6_disable", cfg.transparent_proxy.enabled)
    ∷ (codes "captive_portal_bypass", cfg.transparent_proxy.enabled)
    ∷ (codes "per_app_routing", false)
    ∷ (codes "ipv6", false)
    ∷ []

validated : Option Profile → Option Bytes
validated none = some (codes "no profile found")
validated (some sp) =
    if is_empty sp.ssh.host || nonpositive sp.ssh.port
    then some (codes "selected profile has invalid ssh host/port")
    else if is_empty sp.transport.chain
    then some (codes "selected profile has empty transport chain")
    else none

-- `validate`, on the profiles that it reads: its complaint, if any.
unfoldable pub validate : ProfilesFile → Option Bytes
unfolding validated
validate pf = validated (selected_profile pf)
