-- ===== src/Config/Patch.antt =====
-- `normalizeConfig`, and `applyConfigPatch` with the patch of internal/apiv1/contracts.go.
use sshcustom_vpnchain.Base.{
  Bool, true, false, not, ◌||◌, Option, none, some, List, [], ◌∷◌, if◌then◌else◌, pos, nonpositive,
  Bytes, codes, str_eq,
}
use sshcustom_vpnchain.Base.Text.{join}
use sshcustom_vpnchain.Config.Data.{Config, Hotspot}
use sshcustom_vpnchain.Base.{ℤ}

abbrev pub default_interfaces : List Bytes
default_interfaces =
    codes "wlan+"
    ∷ codes "swlan+"
    ∷ codes "ap+"
    ∷ codes "rndis+"
    ∷ codes "ncm+"
    ∷ codes "bt-pan+"
    ∷ []

abbrev pub interfaces_or_default : List Bytes → List Bytes
interfaces_or_default [] = default_interfaces
interfaces_or_default (x ∷ xs) = x ∷ xs

abbrev pub timeout_or_default : ℤ → ℤ
timeout_or_default v = if nonpositive v then pos 4 else v

-- `normalizeConfig`.
unfoldable pub normalize_config : Config → Config
normalize_config cfg = record cfg {
  dns = record {
    enabled = false;
    mode = codes "device";
    servers = [];
    timeout_sec = timeout_or_default cfg.dns.timeout_sec;
  };
  hotspot = record (cfg.hotspot) { interfaces = interfaces_or_default cfg.hotspot.interfaces };
}

-- `apiv1.HotspotSettings`: a field that is absent is `none`.
pub record HotspotSettings : Type 0 where
  pub enabled : Option Bool
  pub tcp : Option Bool
  pub dns : Option Bool
  pub interfaces : List Bytes

-- `apiv1.ConfigPatchRequest`.
pub record ConfigPatchRequest : Type 0 where
  pub hotspot : Option HotspotSettings
  pub restart : Bool

-- `if p != nil { field = *p }`.
abbrev pub given_or : Option Bool → Bool → Bool
given_or none b = b
given_or (some c) b = c

abbrev pub given_interfaces : List Bytes → List Bytes → List Bytes
given_interfaces [] old = old
given_interfaces (x ∷ xs) old = x ∷ xs

abbrev pub bool_eq : Bool → Bool → Bool
bool_eq true b = b
bool_eq false b = not b

unfoldable pub patched : Hotspot → HotspotSettings → Hotspot
patched h s = record {
  enabled = given_or s.enabled h.enabled;
  tcp = given_or s.tcp h.tcp;
  dns = given_or s.dns h.dns;
  interfaces = given_interfaces s.interfaces h.interfaces;
}

unfoldable pub differs : Hotspot → Hotspot → Bool
differs a b =
    not (bool_eq a.enabled b.enabled)
    || not (bool_eq a.tcp b.tcp)
    || not (bool_eq a.dns b.dns)
    || not (str_eq (join a.interfaces (codes ",")) (join b.interfaces (codes ",")))

-- What `applyConfigPatch` returns; it never returns an error.
pub record PatchResult : Type 0 where
  pub next : Config
  pub changed : List Bytes
  pub restart_required : Bool

unfoldable pub patch_hotspot : Config → Option HotspotSettings → PatchResult
unfolding patched differs normalize_config
patch_hotspot cfg none = record { next = cfg; changed = []; restart_required = false }
patch_hotspot cfg (some s) =
    let next = normalize_config (record cfg { hotspot = patched cfg.hotspot s }) in
    let changes = differs cfg.hotspot next.hotspot in
    record {
      next = next;
      changed = if changes then codes "hotspot" ∷ [] else [];
      restart_required = changes;
    }

-- `applyConfigPatch`.
unfoldable pub apply_config_patch : Config → ConfigPatchRequest → PatchResult
unfolding patch_hotspot
apply_config_patch cfg req = patch_hotspot cfg req.hotspot
