-- ===== src/Transport/Stream.antt =====
-- The stream that SSH reads, and the statuses that it is never built on.
use sshcustom_vpnchain.Base.{
  ◌≡◌, refl, sym, ap, ◌∙◌, inl, inr, true, false, not, ◌&&◌, Option, none, some, List, [], ◌++◌,
  arith, Bool-cases, is_empty, all, ℤ, Bytes, codes,
}
use sshcustom_vpnchain.Base.Text.{cut}
use sshcustom_vpnchain.Transport.Open.{tcp_failed}
use sshcustom_vpnchain.Base.Res.{>>=-eq-ok, Res, ok, err, ◌>>=◌, ◌>>◌, refuse}
use sshcustom_vpnchain.Profile.Data.{PayloadCfg, Profile}
use sshcustom_vpnchain.Profile.Transport.{dial_endpoint}
use sshcustom_vpnchain.Transport.{
  Read, ProbeError, bytes_of, read_probe, extract_http_statuses, extract_ssh_banner,
  allowed_statuses, ssh_mark,
}
use sshcustom_vpnchain.Transport.Open.{
  Way, Prepared, OpenError, through_proxy, through_tls, payload_stage, response_of, with_response,
  judged, endpoint_checked, open_prepared_ssh_conn,
}
use sshcustom_vpnchain.Transport.Banner.{onto-bytes, cut-append}

-- A prefix that is not empty starts at the first mark of what was read.
abbrev Starts : Bytes → Bytes → Type 0
Starts all prefix =
    is_empty prefix ≡ false → (before : Bytes) × (cut all ssh_mark ≡ some (before, prefix))

response-facts :
    (p : Profile) (statuses : List ℤ) (banner all : Bytes) (rs : List Read)
    (found : Option (Bytes × Bytes)) (c : Prepared)
    → cut all ssh_mark ≡ found
    → with_response p statuses banner rs found ≡ ok c
    → (c.statuses ≡ statuses) × (c.reads ≡ rs) × Starts all c.prefix
unfolding with_response
response-facts p statuses banner all rs none c e h =
    (ground arith, ground arith, λ filled. absurd (ground arith))
response-facts p statuses banner all rs (some (before, tail)) c e h =
    elim (Bool-cases (is_empty banner)) [
      | inl bare ↦ (ground arith, ground arith, λ filled. absurd (ground arith))
      | inr shown ↦
          let same : tail ≡ c.prefix = ground arith in
          (ground arith, ground arith, λ filled. (before, e ∙ ap (λ t. some (before, t)) same))
    ]

judged-facts :
    (p : Profile) (all : Bytes) (rs : List Read) (c : Prepared)
    → judged p (all, rs) ≡ ok c
    → (allowed_statuses c.statuses p.transport.payload.allow_statuses ≡ true)
      × (c.reads ≡ rs)
      × Starts all c.prefix
unfolding judged allowed_statuses
judged-facts p all rs c h =
    let statuses = extract_http_statuses all in
    let banner = extract_ssh_banner all in
    let allow = p.transport.payload.allow_statuses in
    let fine : not (is_empty statuses) && not (allowed_statuses statuses allow) ≡ false =
      ground arith in
    elim (Bool-cases (p.transport.payload.enabled && p.transport.payload.read_response)) [
      | inl read ↦
          let answered : with_response p statuses banner rs (cut all ssh_mark) ≡ ok c =
            ground arith in
          let facts = response-facts p statuses banner all rs (cut all ssh_mark) c refl answered in
          (ground (arith, facts.0, fine), facts.1, facts.2)
      | inr unread ↦
          let plain : c ≡ record {
            prefix = [];
            reads = rs;
            banner = banner;
            statuses = statuses;
            evicted = [];
          } =
            ground arith in
          (
            ground (arith, ap (λ (x : Prepared). x.statuses) plain, fine),
            ap (λ (x : Prepared). x.reads) plain,
            λ filled. absurd (ground (arith, ap (λ (x : Prepared). x.prefix) plain)),
          )
    ]

response-bytes :
    (r : Res ProbeError Bytes × List Read) (all : Bytes) (rest : List Read)
    → response_of r ≡ ok (all, rest)
    → r ≡ (ok all, rest)
response-bytes (err e, rs) all rest h = absurd (ground arith)
response-bytes (ok x, rs) all rest h = ground arith

stage-bytes :
    (cfg : PayloadCfg) (w : Way) (rs rest : List Read) (all : Bytes)
    → payload_stage cfg w rs ≡ ok (all, rest)
    → bytes_of rs ≡ all ++ bytes_of rest
unfolding payload_stage read_probe
stage-bytes cfg w rs rest all h =
    ground (arith, response-bytes (read_probe rs) all rest, onto-bytes rs rest [] all)

-- The stream of the server once the proxy and TLS are through.
abbrev pub secured_stream : Profile → Way → Res OpenError (List Read)
secured_stream p w = through_proxy p w >>= through_tls p w

-- The steps of `openPreparedSSHConn` behind the TCP connection.
abbrev from_payload : Profile → Way → List Read → Res OpenError Prepared
from_payload p w secured = payload_stage p.transport.payload w secured >>= judged p

abbrev from_tls : Profile → Way → List Read → Res OpenError Prepared
from_tls p w proxied = through_tls p w proxied >>= from_payload p w

abbrev from_proxy : Profile → Way → Res OpenError Prepared
from_proxy p w = through_proxy p w >>= from_tls p w

abbrev from_tcp : Profile → Way → Bytes × ℤ → Res OpenError Prepared
from_tcp p w endpoint = refuse (not w.tcp_up) tcp_failed >> from_proxy p w

tcp-ok :
    (p : Profile) (w : Way) (c : Prepared)
    → open_prepared_ssh_conn p w ≡ ok c
    → from_proxy p w ≡ ok c
unfolding open_prepared_ssh_conn
tcp-ok p w c h =
    let dialled = >>=-eq-ok (endpoint_checked (dial_endpoint p)) (from_tcp p w) c h in
    let up = >>=-eq-ok (refuse (not w.tcp_up) tcp_failed) (λ u. from_proxy p w) c dialled.2 in up.2

steps :
    (p : Profile) (w : Way) (c : Prepared)
    → open_prepared_ssh_conn p w ≡ ok c
    → (secured : List Read) × (answered : Bytes × List Read) × (secured_stream p w ≡ ok secured)
      × (payload_stage p.transport.payload w secured ≡ ok answered)
      × (judged p answered ≡ ok c)
steps p w c h =
    let proxied = >>=-eq-ok (through_proxy p w) (from_tls p w) c (tcp-ok p w c h) in
    let secured = >>=-eq-ok (through_tls p w proxied.0) (from_payload p w) c proxied.2 in
    let answered =
      >>=-eq-ok (payload_stage p.transport.payload w secured.0) (judged p) c secured.2 in
    let stream : secured_stream p w ≡ ok secured.0 =
      ap (λ (r : Res OpenError (List Read)). r >>= through_tls p w) proxied.1 ∙ secured.1 in
    (secured.0, answered.0, stream, answered.1, answered.2)

-- SSH reads the server's stream from its banner on. When `openPreparedSSHConn` succeeds and has read
-- ahead up to a banner, then, however the network cut the stream into reads, the bytes that the SSH
-- library gets from the prepared connection are those of the stream behind the proxy and TLS, from
-- the first mark of a banner in it to its end; and the HTTP statuses that came before it are all
-- among those that the profile allows, where it names any.
pub open_prepared_ssh_conn_stream :
    (p : Profile) (w : Way) (c : Prepared)
    → open_prepared_ssh_conn p w ≡ ok c
    → is_empty c.prefix ≡ false
    → (secured : List Read) × (before : Bytes) × (secured_stream p w ≡ ok secured)
      × (cut (bytes_of secured) ssh_mark ≡ some (before, c.prefix ++ bytes_of c.reads))
      × (allowed_statuses c.statuses p.transport.payload.allow_statuses ≡ true)
open_prepared_ssh_conn_stream p w c h filled =
    let s = steps p w c h in
    let all = s.1.0 in
    let rest = s.1.1 in
    let facts = judged-facts p all rest c s.4 in
    let found = facts.2 filled in
    let read = stage-bytes p.transport.payload w s.0 rest all s.3 in
    let seen : cut (all ++ bytes_of rest) ssh_mark ≡ some (found.0, c.prefix ++ bytes_of rest) =
      cut-append b'S' all (codes "SH-") (bytes_of rest) found.0 c.prefix found.1 in
    let told : cut (bytes_of s.0) ssh_mark ≡ some (found.0, c.prefix ++ bytes_of c.reads) =
      ap (λ t. cut t ssh_mark) read
      ∙ seen
      ∙ ap (λ rs. some (found.0, c.prefix ++ bytes_of rs)) (sym facts.1) in
    (s.0, found.0, s.2, told, facts.0)
