-- ===== src/Profile/Transport.antt =====
-- main.go: `normalizeMode`, `buildTransport`, and how a profile's transport is read back:
-- `usesHTTPProxy`, `usesTLS` and `dialEndpoint`.
use sshcustom_vpnchain.Base.{
  Bool, true, ◌&&◌, ◌||◌, Option, none, some, List, [], ◌∷◌, ◌++◌, if◌then◌else◌, is_empty, any, ℤ,
  pos, nonpositive, equals, Bytes, codes, str_eq,
}
use sshcustom_vpnchain.Base.Text.{trim_space, to_lower}
use sshcustom_vpnchain.Base.Res.{Res, ok, err}
use sshcustom_vpnchain.Profile.Data.{Profile, Ssh, HttpProxyCfg, TlsCfg, PayloadCfg, TConf}

-- `contains`, on a list of strings.
abbrev pub contains : List Bytes → Bytes → Bool
contains xs v = any (λ x. str_eq x v) xs

abbrev pub one_of : Bytes → List Bytes → Bool
one_of s names = contains names s

-- `normalizeMode`; the empty text says that the mode is not known.
unfoldable pub normalize_mode : Bytes → Bytes
normalize_mode mode =
    let m = trim_space (to_lower mode) in
    if one_of m (codes "direct" ∷ codes "ssh" ∷ codes "ssh_payload" ∷ codes "ssh+pl" ∷ [])
    then codes "direct"
    else if one_of m (
        codes "http_proxy"
        ∷ codes "ssh_http_proxy"
        ∷ codes "ssh+http"
        ∷ codes "ssh+http_proxy"
        ∷ codes "ssh+pl+http"
        ∷ [])
    then codes "http_proxy"
    else if one_of m (codes "tls_sni" ∷ codes "sni" ∷ codes "ssh+sni" ∷ codes "ssh+pl+sni" ∷ [])
    then codes "tls_sni"
    else if one_of m (
        codes "http_proxy_tls_sni"
        ∷ codes "http_tls"
        ∷ codes "ssh+http+sni"
        ∷ codes "ssh+pl+http+sni"
        ∷ [])
    then codes "http_proxy_tls_sni"
    else []

-- `mode == "http_proxy" || mode == "http_proxy_tls_sni"`, and the same for TLS.
abbrev pub wants_proxy : Bytes → Bool
wants_proxy mode = str_eq mode (codes "http_proxy") || str_eq mode (codes "http_proxy_tls_sni")

abbrev pub wants_tls : Bytes → Bool
wants_tls mode = str_eq mode (codes "tls_sni") || str_eq mode (codes "http_proxy_tls_sni")

unfoldable pub send_timing : Bytes → Bytes
send_timing mode =
    if str_eq mode (codes "http_proxy")
    then codes "after_proxy_socket_before_ssh"
    else if wants_tls mode
    then codes "after_tls_before_ssh"
    else codes "before_ssh"

-- The payload with its defaults.
unfoldable pub filled_payload : Bytes → PayloadCfg → PayloadCfg
unfolding send_timing
filled_payload mode p = record p {
  send_timing = if is_empty p.send_timing then send_timing mode else p.send_timing;
  allow_statuses =
      if is_empty p.allow_statuses
      then pos 101 ∷ pos 200 ∷ pos 204 ∷ pos 302 ∷ []
      else p.allow_statuses;
}

abbrev pub given_proxy : Option HttpProxyCfg → Ssh → HttpProxyCfg
given_proxy none ssh = record {
  host = ssh.host;
  port = ssh.port;
  connect_method = codes "socket";
  fallback_ips = [];
}
given_proxy (some hp) ssh = hp

-- The proxy with its defaults; with TLS behind it, port 80 becomes 443.
unfoldable pub filled_proxy : Bytes → Option HttpProxyCfg → Ssh → HttpProxyCfg
filled_proxy mode hp ssh =
    let proxy = given_proxy hp ssh in
    let port = if nonpositive proxy.port then ssh.port else proxy.port in
    record proxy {
      host = if is_empty proxy.host then ssh.host else proxy.host;
      port = if str_eq mode (codes "http_proxy_tls_sni") && equals port 80 then pos 443 else port;
      connect_method =
          if is_empty proxy.connect_method then codes "socket" else proxy.connect_method;
    }

abbrev pub given_tls : Option TlsCfg → Ssh → TlsCfg
given_tls none ssh = record {
  enabled = true;
  server_name = ssh.host;
  insecure_skip_verify = true;
  alpn = codes "http/1.1" ∷ [];
}
given_tls (some tc) ssh = tc

unfoldable pub filled_tls : Option TlsCfg → Ssh → TlsCfg
filled_tls given ssh =
    let tc = given_tls given ssh in
    record tc {
      enabled = true;
      server_name = if is_empty tc.server_name then ssh.host else tc.server_name;
      alpn = if is_empty tc.alpn then codes "http/1.1" ∷ [] else tc.alpn;
    }

-- `buildTransport`.
unfoldable pub build_transport :
    Bytes → PayloadCfg → Option HttpProxyCfg → Option TlsCfg → Ssh → TConf
unfolding filled_payload filled_proxy filled_tls
build_transport mode payload hp tls ssh = record {
  mode = mode;
  chain =
      codes "tcp"
      ∷ ((if wants_proxy mode then codes "http_proxy" ∷ [] else [])
          ++ ((if wants_tls mode then codes "tls" ∷ [] else [])
              ++ ((if payload.enabled then codes "payload" ∷ [] else []) ++ codes "ssh" ∷ [])));
  http_proxy = if wants_proxy mode then some (filled_proxy mode hp ssh) else none;
  tls = if wants_tls mode then some (filled_tls tls ssh) else none;
  payload = filled_payload mode payload;
}

-- `usesHTTPProxy` and `usesTLS`.
unfoldable pub uses_http_proxy : Profile → Bool
uses_http_proxy p = wants_proxy p.transport.mode || contains p.transport.chain (codes "http_proxy")

unfoldable pub uses_tls : Profile → Bool
uses_tls p = wants_tls p.transport.mode || contains p.transport.chain (codes "tls")

pub data EndpointError : Type 0 where
  proxy_missing : EndpointError
  invalid_endpoint : Bytes → ℤ → EndpointError

abbrev pub checked_endpoint : Bytes → ℤ → Res EndpointError (Bytes × ℤ)
checked_endpoint host port =
    if is_empty host || nonpositive port then err (invalid_endpoint host port) else ok (host, port)

abbrev pub proxy_endpoint : Option HttpProxyCfg → Res EndpointError (Bytes × ℤ)
proxy_endpoint none = err proxy_missing
proxy_endpoint (some hp) = checked_endpoint hp.host hp.port

-- `dialEndpoint`.
unfoldable pub dial_endpoint : Profile → Res EndpointError (Bytes × ℤ)
unfolding uses_http_proxy
dial_endpoint p =
    if uses_http_proxy p
    then proxy_endpoint p.transport.http_proxy
    else checked_endpoint p.ssh.host p.ssh.port
