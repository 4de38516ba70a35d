-- ===== src/Transport/Open.antt =====
-- main.go: `httpCONNECT` and `openPreparedSSHConn`. What the network does is an argument; the
-- connection that comes out is a prefix that `prefixConn` gives first, and the reads behind it.
use sshcustom_vpnchain.Base.{
  Bool, not, ◌&&◌, ◌||◌, Option, none, some, List, [], ◌∷◌, if◌then◌else◌, is_empty, any, all, ℤ,
  exceeds, under, equals, Bytes, codes,
}
use sshcustom_vpnchain.Base.Text.{equal_fold, cut}
use sshcustom_vpnchain.Base.Res.{Res, ok, err, ◌>>=◌, ◌>>◌, refuse}
use sshcustom_vpnchain.Profile.Data.{HttpProxyCfg, TlsCfg, PayloadCfg, Profile}
use sshcustom_vpnchain.Profile.Transport.{uses_http_proxy, uses_tls, dial_endpoint, EndpointError}
use sshcustom_vpnchain.Transport.{
  Read, ProbeError, read_probe, read_some, extract_http_statuses, extract_ssh_banner,
  allowed_statuses, render_payload, ssh_mark,
}

pub data OpenError : Type 0 where
  bad_endpoint : EndpointError → OpenError
  tcp_failed connect_write_failed connect_no_status tls_missing tls_failed payload_failed :
      OpenError
  connect_refused : ℤ → OpenError
  connect_read : ProbeError → OpenError
  response_failed banner_failed : ProbeError → OpenError
  status_not_allowed : List ℤ → OpenError
  no_banner : OpenError

-- What the network does: whether the TCP connection comes up, what it reads, whether the two writes
-- work, whether the TLS handshake does, and what is then read through TLS. `order` is that of
-- `renderPayload`.
pub record Way : Type 0 where
  pub tcp_up : Bool
  pub reads : List Read
  pub connect_written : Bool
  pub tls_up : Bool
  pub tls_reads : List Read
  pub payload_written : Bool
  pub order : List (Bytes × Bytes) → List (Bytes × Bytes)

-- The connection, and what the probe found; the hosts whose DNS entries are evicted.
pub record Prepared : Type 0 where
  pub prefix : Bytes
  pub reads : List Read
  pub banner : Bytes
  pub statuses : List ℤ
  pub evicted : List Bytes

-- `statuses[0] < 200 || statuses[0] > 299`.
abbrev pub connect_verdict : List ℤ → Option OpenError
connect_verdict [] = some connect_no_status
connect_verdict (n ∷ rest) = if under n 200 || exceeds n 299 then some (connect_refused n) else none

abbrev pub connect_read_as : Res ProbeError Bytes × List Read → Res OpenError (List Read)
connect_read_as (err e, rs) = err (connect_read e)
connect_read_as (ok response, rs) = elim (connect_verdict (extract_http_statuses response)) [
  | none ↦ ok rs
  | some e ↦ err e
]

-- `httpCONNECT`: the reads that are left.
unfoldable pub http_connect : Way → Res OpenError (List Read)
http_connect w =
    if w.connect_written then connect_read_as (read_some w.reads) else err connect_write_failed

abbrev pub method_of : Option HttpProxyCfg → Bytes
method_of none = []
method_of (some hp) = hp.connect_method

-- The part of the proxy.
unfoldable pub through_proxy : Profile → Way → Res OpenError (List Read)
unfolding http_connect
through_proxy p w =
    if uses_http_proxy p && equal_fold (method_of p.transport.http_proxy) (codes "connect")
    then http_connect w
    else ok w.reads

abbrev pub tls_up_to : Option TlsCfg → Way → Res OpenError (List Read)
tls_up_to none w = err tls_missing
tls_up_to (some tls) w = if w.tls_up then ok w.tls_reads else err tls_failed

-- The part of TLS.
unfoldable pub through_tls : Profile → Way → List Read → Res OpenError (List Read)
through_tls p w rs = if uses_tls p then tls_up_to p.transport.tls w else ok rs

abbrev pub response_of : Res ProbeError Bytes × List Read → Res OpenError (Bytes × List Read)
response_of (err e, rs) = err (response_failed e)
response_of (ok all, rs) = ok (all, rs)

-- The part of the payload: what was read of its response, and the reads that are left.
unfoldable pub payload_stage : PayloadCfg → Way → List Read → Res OpenError (Bytes × List Read)
payload_stage cfg w rs =
    if not cfg.enabled
    then ok ([], rs)
    else if not w.payload_written
    then err payload_failed
    else if cfg.read_response
    then response_of (read_probe rs)
    else ok ([], rs)

-- The bytes that are written as payload.
unfoldable pub payload_sent : Profile → Way → Bytes
payload_sent p w =
    if p.transport.payload.enabled
    then render_payload w.order p.transport.payload.template p
    else []

abbrev pub host_of_proxy : Option HttpProxyCfg → List Bytes
host_of_proxy none = []
host_of_proxy (some hp) = hp.host ∷ []

-- `s == 302 || s == 301 || s == 503`.
abbrev pub is_rate_limit : ℤ → Bool
is_rate_limit n = equals n 302 || equals n 301 || equals n 503

-- The response had a status and no banner.
abbrev pub wait_for_banner : Profile → List ℤ → List Read → Prepared
wait_for_banner p statuses rs = record {
  prefix = [];
  reads = rs;
  banner = [];
  statuses = statuses;
  evicted =
      if any is_rate_limit statuses then p.ssh.host ∷ host_of_proxy p.transport.http_proxy else [];
}

-- `banner != "" && idx >= 0`, or else.
unfoldable pub with_response :
    Profile → List ℤ → Bytes → List Read → Option (Bytes × Bytes) → Res OpenError Prepared
with_response p statuses banner rs found =
    let waiting = if is_empty statuses then err no_banner else ok (wait_for_banner p statuses rs) in
    elim found [
      | none ↦ waiting
      | some (before, tail) ↦
          if is_empty banner
          then waiting
          else ok (record {
            prefix = tail;
            reads = rs;
            banner = banner;
            statuses = statuses;
            evicted = [];
          })
    ]

-- Behind the payload.
unfoldable pub judged : Profile → Bytes × List Read → Res OpenError Prepared
unfolding with_response
judged p (all, rs) =
    let statuses = extract_http_statuses all in
    let banner = extract_ssh_banner all in
    if not (is_empty statuses) && not (allowed_statuses statuses p.transport.payload.allow_statuses)
    then err (status_not_allowed statuses)
    else if p.transport.payload.enabled && p.transport.payload.read_response
    then with_response p statuses banner rs (cut all ssh_mark)
    else ok (record { prefix = []; reads = rs; banner = banner; statuses = statuses; evicted = [] })

abbrev pub endpoint_checked : Res EndpointError (Bytes × ℤ) → Res OpenError (Bytes × ℤ)
endpoint_checked (ok e) = ok e
endpoint_checked (err e) = err (bad_endpoint e)

-- `openPreparedSSHConn`.
unfoldable pub open_prepared_ssh_conn : Profile → Way → Res OpenError Prepared
unfolding through_proxy through_tls payload_stage judged
open_prepared_ssh_conn p w = do
  endpoint ← endpoint_checked (dial_endpoint p)
  refuse (not w.tcp_up) tcp_failed
  proxied ← through_proxy p w
  secured ← through_tls p w proxied
  answered ← payload_stage p.transport.payload w secured
  judged p answered
