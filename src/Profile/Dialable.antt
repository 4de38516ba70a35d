-- ===== src/Profile/Dialable.antt =====
-- How a saved profile dials.
use sshcustom_vpnchain.Base.{
  ℕ, ◌≡◌, refl, sym, ◌∙◌, inl, inr, false, ◌&&◌, Option, none, some, [], ◌∷◌, arith, Bool-cases,
  is_some, is_empty, ℤ, nonpositive, equals, Bytes, codes, str_eq,
}
use sshcustom_vpnchain.Base.Res.{ok}
use sshcustom_vpnchain.Base.Text.{trim_space}
use sshcustom_vpnchain.Profile.Data.{Ssh, HttpProxyCfg, Profile, ProfilesFile, SaveProfileRequest}
use sshcustom_vpnchain.Profile.Transport.{
  normalize_mode, wants_proxy, wants_tls, build_transport, filled_proxy, uses_http_proxy, uses_tls,
  dial_endpoint, checked_endpoint,
}
use sshcustom_vpnchain.Profile.Upsert.{id_of, edited, saved_profile, filled_ssh, upsert_profile}
use sshcustom_vpnchain.Profile.WellFormed.Requests.{upsert_profile-ok}
use sshcustom_vpnchain.Base.Text.{trim, trim_left}

uses_http_proxy-saved :
    (id mode : Bytes) (req : SaveProfileRequest) (old : Option Profile)
    → uses_http_proxy (saved_profile id req mode old) ≡ wants_proxy mode
unfolding uses_http_proxy saved_profile build_transport
uses_http_proxy-saved id mode req old = elim (Bool-cases (wants_proxy mode)) [
  | inl p ↦ rw p refl
  | inr p ↦ elim (Bool-cases (wants_tls mode)) [
    | inl t ↦ elim (Bool-cases req.payload.enabled) [
      | inl e ↦ rw p (rw t (rw e refl))
      | inr e ↦ rw p (rw t (rw e refl))
    ]
    | inr t ↦ elim (Bool-cases req.payload.enabled) [
      | inl e ↦ rw p (rw t (rw e refl))
      | inr e ↦ rw p (rw t (rw e refl))
    ]
  ]
]

uses_tls-saved :
    (id mode : Bytes) (req : SaveProfileRequest) (old : Option Profile)
    → uses_tls (saved_profile id req mode old) ≡ wants_tls mode
unfolding uses_tls saved_profile build_transport
uses_tls-saved id mode req old = elim (Bool-cases (wants_tls mode)) [
  | inl t ↦ rw t refl
  | inr t ↦ elim (Bool-cases (wants_proxy mode)) [
    | inl p ↦ elim (Bool-cases req.payload.enabled) [
      | inl e ↦ rw p (rw t (rw e refl))
      | inr e ↦ rw p (rw t (rw e refl))
    ]
    | inr p ↦ elim (Bool-cases req.payload.enabled) [
      | inl e ↦ rw p (rw t (rw e refl))
      | inr e ↦ rw p (rw t (rw e refl))
    ]
  ]
]

trim_space-empty : (s : Bytes) → is_empty (trim_space s) ≡ false → is_empty s ≡ false
unfolding trim trim_left
trim_space-empty [] h = h
trim_space-empty (c ∷ s) h = refl

-- Where a saved profile connects to: not to port 80 when TLS goes through the proxy.
abbrev pub Dials : Profile → Bytes → Type 0
Dials p mode =
    (host : Bytes) × ((port : ℤ) × ((dial_endpoint p ≡ ok (host, port))
        × ((nonpositive port ≡ false)
            × (str_eq mode (codes "http_proxy_tls_sni") && equals port 80 ≡ false))))

checked :
    (host : Bytes) (port : ℤ)
    → is_empty host ≡ false
    → nonpositive port ≡ false
    → checked_endpoint host port ≡ ok (host, port)
checked host port h p = ground arith

filled_proxy-good :
    (mode : Bytes) (hp : Option HttpProxyCfg) (ssh : Ssh)
    → is_empty ssh.host ≡ false
    → nonpositive ssh.port ≡ false
    → (is_empty (filled_proxy mode hp ssh).host ≡ false)
      × ((nonpositive (filled_proxy mode hp ssh).port ≡ false)
          × (str_eq mode (codes "http_proxy_tls_sni") && equals (filled_proxy mode hp ssh).port 80
              ≡ false))
unfolding filled_proxy
filled_proxy-good mode none ssh h p = ground arith
filled_proxy-good mode (some hp) ssh h p = ground arith

direct_mode :
    (mode : Bytes) → wants_proxy mode ≡ false → str_eq mode (codes "http_proxy_tls_sni") ≡ false
direct_mode mode h = ground arith

Dials-saved :
    (id mode : Bytes) (req : SaveProfileRequest) (old : Option Profile)
    → is_empty req.ssh.host ≡ false
    → nonpositive req.ssh.port ≡ false
    → Dials (saved_profile id req mode old) mode
unfolding dial_endpoint saved_profile build_transport filled_ssh
Dials-saved id mode req old h p =
    let ssh = filled_ssh req old in
    let use_proxy : uses_http_proxy (saved_profile id req mode old) ≡ wants_proxy mode =
      uses_http_proxy-saved id mode req old in
    elim (Bool-cases (wants_proxy mode)) [
      | inl w ↦
          let hp = filled_proxy mode req.http_proxy ssh in
          let good = filled_proxy-good mode req.http_proxy ssh h p in
          let dialled : dial_endpoint (saved_profile id req mode old) ≡ ok (hp.host, hp.port) =
            rw use_proxy (rw w (checked hp.host hp.port good.0 good.1.0)) in
          (hp.host, (hp.port, (dialled, good.1)))
      | inr w ↦
          let dialled : dial_endpoint (saved_profile id req mode old)
              ≡ ok (req.ssh.host, req.ssh.port) =
            rw use_proxy (rw w (checked req.ssh.host req.ssh.port h p)) in
          (req.ssh.host, (req.ssh.port, (dialled, (p, ground (arith, direct_mode mode w)))))
    ]

has_parts :
    (id mode : Bytes) (req : SaveProfileRequest) (old : Option Profile)
    → (is_some (saved_profile id req mode old).transport.http_proxy ≡ wants_proxy mode)
      × (is_some (saved_profile id req mode old).transport.tls ≡ wants_tls mode)
unfolding saved_profile build_transport
has_parts id mode req old = (ground arith, ground arith)

-- The profile that an accepted request stores can be dialled: it has an endpoint with a positive
-- port, which is not port 80 when TLS goes through an HTTP proxy, and the engine finds a proxy
-- and TLS settings in it exactly when it looks for them.
pub upsert_profile-Dials :
    (pf next : ProfilesFile) (req : SaveProfileRequest) (now : ℕ)
    → upsert_profile pf req now ≡ ok next
    → let mode = normalize_mode req.mode in
      let p = saved_profile (id_of pf req now) req mode (edited pf req) in
      Dials p mode
      × ((uses_http_proxy p ≡ is_some p.transport.http_proxy)
          × (uses_tls p ≡ is_some p.transport.tls))
upsert_profile-Dials pf next req now h =
    let id = id_of pf req now in
    let mode = normalize_mode req.mode in
    let old = edited pf req in
    let accepted = upsert_profile-ok pf next req now h in
    let parts = has_parts id mode req old in
    (
      Dials-saved id mode req old (trim_space-empty req.ssh.host accepted.0) accepted.1.0,
      (
        uses_http_proxy-saved id mode req old ∙ sym parts.0,
        uses_tls-saved id mode req old ∙ sym parts.1,
      ),
    )
