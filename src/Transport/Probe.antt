-- ===== src/Transport/Probe.antt =====
-- cmd/sshcustomd/main.go: `attemptTransport`, which the command `probe` runs, set beside
-- `openPreparedSSHConn`, which the daemon connects with.
use sshcustom_vpnchain.Base.{
  ◌≡◌, refl, sym, ap, ◌∙◌, subst, inl, inr, true, false, not, ◌&&◌, Option, none, some, List, [],
  ◌∷◌, if◌then◌else◌, Bool-cases, is_empty, all, ℤ, Bytes,
}
use sshcustom_vpnchain.Base.Res.{Res, ok, err, ◌>>=◌, ◌>>◌, refuse}
use sshcustom_vpnchain.Profile.Data.{PayloadCfg, Profile}
use sshcustom_vpnchain.Profile.Transport.{dial_endpoint}
use sshcustom_vpnchain.Base.Text.{cut}
use sshcustom_vpnchain.Transport.{
  Read, ProbeError, read_probe, extract_http_statuses, extract_ssh_banner, allowed_statuses,
  ssh_mark, banner_of,
}
use sshcustom_vpnchain.Transport.Open.{
  Way, Prepared, OpenError, tcp_failed, payload_failed, banner_failed, no_banner,
  status_not_allowed, through_proxy, through_tls, payload_stage, with_response, judged,
  endpoint_checked, open_prepared_ssh_conn,
}
use sshcustom_vpnchain.Transport.{split_lines, replace_from, fields_onto}
use sshcustom_vpnchain.Transport.{split_lines, replace_from, fields_onto}
use sshcustom_vpnchain.Base.Text.{trim}

-- What a transport shows of itself.
pub record Probed : Type 0 where
  pub banner : Bytes
  pub statuses : List ℤ

banner_read : Res ProbeError Bytes × List Read → Res OpenError (Bytes × List Read)
banner_read (err e, rs) = err (banner_failed e)
banner_read (ok all, rs) = ok (all, rs)

-- The part of the payload; without one it is the server's banner that is read.
probe_stage : PayloadCfg → Way → List Read → Res OpenError (Bytes × List Read)
unfolding banner_read payload_stage
probe_stage cfg w rs = if cfg.enabled then payload_stage cfg w rs else banner_read (read_probe rs)

probed : Profile → Bytes × List Read → Res OpenError Probed
probed p (all, rs) =
    let statuses = extract_http_statuses all in
    let banner = extract_ssh_banner all in
    if not (is_empty statuses) && not (allowed_statuses statuses p.transport.payload.allow_statuses)
    then err (status_not_allowed statuses)
    else if is_empty banner && is_empty statuses
    then err no_banner
    else ok (record { banner = banner; statuses = statuses })

-- `attemptTransport`.
unfoldable pub attempt_transport : Profile → Way → Res OpenError Probed
unfolding probe_stage probed through_proxy through_tls
attempt_transport p w = do
  endpoint ← endpoint_checked (dial_endpoint p)
  refuse (not w.tcp_up) tcp_failed
  proxied ← through_proxy p w
  secured ← through_tls p w proxied
  answered ← probe_stage p.transport.payload w secured
  probed p answered

-- What a prepared connection shows.
abbrev pub shown : Prepared → Res OpenError Probed
shown c = ok (record { banner = c.banner; statuses = c.statuses })

bind-shown :
    {A : Type 0} (m : Res OpenError A) (f : A → Res OpenError Prepared)
    (g : A → Res OpenError Probed)
    → ((a : A) → f a >>= shown ≡ g a)
    → (m >>= f) >>= shown ≡ m >>= g
bind-shown (ok a) f g h = h a
bind-shown (err e) f g h = refl

abbrev verdict : Bytes → List ℤ → Res OpenError Probed
verdict banner statuses =
    if is_empty banner && is_empty statuses
    then err no_banner
    else ok (record { banner = banner; statuses = statuses })

response-shown :
    (p : Profile) (statuses : List ℤ) (banner : Bytes) (rs : List Read) (before tail : Bytes)
    → with_response p statuses banner rs (some (before, tail)) >>= shown ≡ verdict banner statuses
unfolding with_response
response-shown p [] [] rs before tail = refl
response-shown p (n ∷ ns) [] rs before tail = refl
response-shown p statuses (c ∷ banner) rs before tail = refl

found-shown :
    (p : Profile) (statuses : List ℤ) (rs : List Read) (found : Option (Bytes × Bytes))
    → with_response p statuses (banner_of found) rs found >>= shown
      ≡ verdict (banner_of found) statuses
unfolding with_response
found-shown p [] rs none = refl
found-shown p (n ∷ ns) rs none = refl
found-shown p statuses rs (some (before, tail)) =
    response-shown p statuses (banner_of (some (before, tail))) rs before tail

judged-shown :
    (p : Profile) (a : Bytes × List Read)
    → p.transport.payload.enabled ≡ true
    → p.transport.payload.read_response ≡ true
    → judged p a >>= shown ≡ probed p a
unfolding judged probed extract_ssh_banner
judged-shown p (all, rs) en rd =
    let statuses = extract_http_statuses all in
    elim (Bool-cases (
      not (is_empty statuses)
      && not (allowed_statuses statuses p.transport.payload.allow_statuses))) [
        | inl refused ↦ rw refused refl
        | inr allowed ↦ rw (allowed, en, rd) (found-shown p statuses rs (cut all ssh_mark))
      ]

probe_stage-enabled :
    (cfg : PayloadCfg) (w : Way) (rs : List Read)
    → cfg.enabled ≡ true
    → probe_stage cfg w rs ≡ payload_stage cfg w rs
unfolding probe_stage
probe_stage-enabled cfg w rs en =
    ap (λ c. if c then payload_stage cfg w rs else banner_read (read_probe rs)) en

-- For a profile that sends a payload and reads the response, the command `probe` tells
-- beforehand what the daemon will meet on the same network: `attemptTransport` and
-- `openPreparedSSHConn` fail with the same error, or both succeed, with the same banner and statuses.
pub attempt_transport-open_prepared_ssh_conn :
    (p : Profile) (w : Way)
    → p.transport.payload.enabled ≡ true
    → p.transport.payload.read_response ≡ true
    → open_prepared_ssh_conn p w >>= shown ≡ attempt_transport p w
unfolding attempt_transport open_prepared_ssh_conn
attempt_transport-open_prepared_ssh_conn p w en rd =
    bind-shown (endpoint_checked (dial_endpoint p)) _ _ (λ endpoint.
      bind-shown (refuse (not w.tcp_up) tcp_failed) _ _ (λ up.
        bind-shown (through_proxy p w) _ _ (λ proxied.
          bind-shown (through_tls p w proxied) _ _ (λ secured.
            bind-shown (payload_stage p.transport.payload w secured) _ _
              (λ a. judged-shown p a en rd)
            ∙ ap (λ m. m >>= probed p)
                (sym (probe_stage-enabled p.transport.payload w secured en))))))

-- An error of some kind.
abbrev Fails : Res OpenError Probed → Type 0
Fails r = (e : OpenError) × (r ≡ err e)

bind-Fails :
    {A : Type 0} (m : Res OpenError A) (f : A → Res OpenError Probed)
    → ((a : A) → Fails (f a))
    → Fails (m >>= f)
bind-Fails (ok a) f h = h a
bind-Fails (err e) f h = (e, refl)

nothing-probed : (p : Profile) (rs : List Read) → probed p ([], rs) ≡ err no_banner
unfolding probed extract_ssh_banner extract_http_statuses split_lines replace_from cut fields_onto
    trim
nothing-probed p rs = refl

-- Where the response to the payload is not read, there is nothing to judge.
unread :
    (p : Profile) (w : Way) (rs : List Read) (cfg : PayloadCfg)
    → cfg.enabled ≡ true
    → cfg.read_response ≡ false
    → Fails (payload_stage cfg w rs >>= probed p)
unfolding payload_stage
unread p w rs cfg en rd = elim (Bool-cases w.payload_written) [
  | inl written ↦ rw (en, rd, written) (no_banner, nothing-probed p rs)
  | inr failed ↦ rw (en, rd, failed) (payload_failed, refl)
]

-- `probe` cannot succeed for a profile that sends a payload and does not read the response,
-- whatever the network does: it fails at one of the steps before, or for want of a banner that it
-- never reads.
pub attempt_transport_unread :
    (p : Profile) (w : Way)
    → p.transport.payload.enabled ≡ true
    → p.transport.payload.read_response ≡ false
    → (e : OpenError) × (attempt_transport p w ≡ err e)
unfolding attempt_transport
attempt_transport_unread p w en rd = bind-Fails (endpoint_checked (dial_endpoint p)) _ (λ endpoint.
    bind-Fails (refuse (not w.tcp_up) tcp_failed) _ (λ up.
      bind-Fails (through_proxy p w) _ (λ proxied.
        bind-Fails (through_tls p w proxied) _ (λ secured.
          subst (λ (m : Res OpenError (Bytes × List Read)). Fails (m >>= probed p))
            (sym (probe_stage-enabled p.transport.payload w secured en))
            (unread p w secured p.transport.payload en rd)))))
