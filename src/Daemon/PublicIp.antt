-- ===== src/Daemon/PublicIp.antt =====
-- cmd/sshcustomd/main.go: `lookupPublicIPs`, its cache, and what it makes of the provider's answer.
-- The request through the local SOCKS5 server is an argument, and so is what decoding its body
-- gives. Times are nanoseconds.
pub mod Fresh
use sshcustom_vpnchain.Base.{
  ℕ, ◌+◌, Bool, true, false, not, ◌&&◌, Option, none, some, List, [], ◌∷◌, map, ltb, if◌then◌else◌,
  is_empty, Bytes, codes, str_eq,
}
use sshcustom_vpnchain.Base.Text.{trim_space}
use sshcustom_vpnchain.Base.Res.{Res, ok, err, ◌>>=◌, ◌>>◌}
use sshcustom_vpnchain.Transport.{fields_onto}
use mathlib.Core.Option

-- `ipAPIResponse`.
pub record IpApiResponse : Type 0 where
  pub status : Bytes
  pub message : Bytes
  pub query : Bytes
  pub country : Bytes
  pub region_name : Bytes
  pub city : Bytes
  pub isp : Bytes
  pub org : Bytes
  pub as_number : Bytes
  pub as_name : Bytes
  pub timezone : Bytes

-- `apiv1.PublicIPDetails`.
pub record PublicIpDetails : Type 0 where
  pub path : Bytes
  pub is_ok : Bool
  pub ip : Bytes
  pub country : Bytes
  pub region : Bytes
  pub city : Bytes
  pub isp : Bytes
  pub org : Bytes
  pub asn : Bytes
  pub as_name : Bytes
  pub timezone : Bytes
  pub latency_ms : ℕ
  pub error : Bytes
  pub cached : Bool

first_of : List Bytes → Bytes
first_of [] = []
first_of (f ∷ fs) = f

-- `publicIPASN`.
unfoldable pub public_ip_asn : Bytes → Bytes
unfolding first_of
public_ip_asn raw = first_of (fields_onto [] (trim_space raw))

-- Details with an error, or with nothing yet.
abbrev pub failed_details : Bytes → ℕ → Bytes → PublicIpDetails
failed_details path ms e = record {
  path = path;
  is_ok = false;
  ip = [];
  country = [];
  region = [];
  city = [];
  isp = [];
  org = [];
  asn = [];
  as_name = [];
  timezone = [];
  latency_ms = ms;
  error = e;
  cached = false;
}

-- `parsePublicIPDetails`, on what `json.Unmarshal` gives.
unfoldable pub parse_public_ip_details : Bytes → Res Bytes IpApiResponse → ℕ → PublicIpDetails
unfolding public_ip_asn
parse_public_ip_details path (err e) ms = failed_details path ms e
parse_public_ip_details path (ok api) ms =
    if not (is_empty api.status) && not (str_eq api.status (codes "success"))
    then failed_details path ms
        (if is_empty api.message then codes "public IP lookup failed" else api.message)
    else record {
      path = path;
      is_ok = true;
      ip = api.query;
      country = api.country;
      region = api.region_name;
      city = api.city;
      isp = api.isp;
      org = api.org;
      asn = public_ip_asn api.as_number;
      as_name = api.as_name;
      timezone = api.timezone;
      latency_ms = ms;
      error = [];
      cached = false;
    }

-- A lookup through the tunnel: how long it takes, and the body that the provider sends, decoded.
pub record Fetch : Type 0 where
  pub took_ms : ℕ
  pub body : Res Bytes (Res Bytes IpApiResponse)

fetched_details : ℕ → Res Bytes (Res Bytes IpApiResponse) → PublicIpDetails
fetched_details ms (err e) = failed_details (codes "tunnel") ms e
fetched_details ms (ok decoded) = parse_public_ip_details (codes "tunnel") decoded ms

-- `lookupPublicIPTunnel`, with whether the SOCKS5 server is enabled.
unfoldable pub lookup_public_ip_tunnel : Bool → Fetch → PublicIpDetails
unfolding fetched_details
lookup_public_ip_tunnel socks_enabled f =
    if not socks_enabled
    then failed_details (codes "tunnel") 0 (codes "SOCKS5 is disabled")
    else fetched_details f.took_ms f.body

-- `apiv1.PublicIPResponse`; nothing sets the device's side.
pub record PublicIpResponse : Type 0 where
  pub checked_at : ℕ
  pub tunnel : Option PublicIpDetails

-- `publicIPCache`.
pub record PublicIpCache : Type 0 where
  pub resp : PublicIpResponse
  pub expires : ℕ

abbrev pub mark_cached : PublicIpDetails → PublicIpDetails
mark_cached d = record d { cached = true }

-- A request: its time and whether it asks for a new lookup, and the lookup, if one is made, with
-- the time at which it begins and the one at which it is stored.
pub record IpRequest : Type 0 where
  pub now : ℕ
  pub refresh : Bool
  pub began : ℕ
  pub stored : ℕ
  pub socks_enabled : Bool
  pub fetch : Fetch

-- The response of the cache. The cache shares its details with the response, so that the mark stays.
unfoldable pub cached_response : PublicIpResponse → PublicIpResponse
cached_response resp = record resp { tunnel = Option.map mark_cached resp.tunnel }

unfoldable pub new_response : IpRequest → PublicIpResponse
unfolding lookup_public_ip_tunnel
new_response q = record {
  checked_at = q.began;
  tunnel = some (lookup_public_ip_tunnel q.socks_enabled q.fetch);
}

-- `lookupPublicIPs`: the cache after it, and the response.
unfoldable pub lookup_public_ips : PublicIpCache → IpRequest → PublicIpCache × PublicIpResponse
unfolding cached_response new_response
lookup_public_ips c q =
    if not q.refresh && ltb q.now c.expires
    then (record c { resp = cached_response c.resp }, cached_response c.resp)
    else (record { resp = new_response q; expires = q.stored + 60000000000 }, new_response q)

unfoldable pub lookup_run : PublicIpCache → List IpRequest → PublicIpCache
lookup_run c [] = c
lookup_run c (q ∷ qs) = lookup_run (lookup_public_ips c q).0 qs

-- Go's zero value of the cache.
abbrev pub empty_cache : PublicIpCache
empty_cache = record { resp = record { checked_at = 0; tunnel = none }; expires = 0 }
