-- ===== src/Config/Patching.antt =====
-- What the values derived from the configuration can be, and what a patch does to it.
use sshcustom_vpnchain.Base.{
  ◌≡◌, refl, ap, ◌∙◌, inl, inr, Bool, true, false, Option, none, some, List, [], ◌∷◌, arith,
  Option-cases, ℤ, Bytes, codes, str_eq_refl,
}
use sshcustom_vpnchain.Base.Text.{join}
use sshcustom_vpnchain.Config.Data.{Config, Hotspot}
use sshcustom_vpnchain.Config.Patch.{
  normalize_config, ConfigPatchRequest, HotspotSettings, PatchResult, apply_config_patch,
  patch_hotspot, patched, differs, given_or, bool_eq,
}
use sshcustom_vpnchain.Config.Patch.{interfaces_or_default, timeout_or_default, given_interfaces}

bool_eq_refl : (b : Bool) → bool_eq b b ≡ true
bool_eq_refl true = refl
bool_eq_refl false = refl

differs_self : (h : Hotspot) → differs h h ≡ false
unfolding differs
differs_self h = ground (
  arith,
  bool_eq_refl h.enabled,
  bool_eq_refl h.tcp,
  bool_eq_refl h.dns,
  str_eq_refl (join h.interfaces (codes ",")),
)

pub interfaces_twice :
    (xs : List Bytes) → interfaces_or_default (interfaces_or_default xs) ≡ interfaces_or_default xs
interfaces_twice [] = refl
interfaces_twice (x ∷ xs) = refl

pub timeout_twice : (v : ℤ) → timeout_or_default (timeout_or_default v) ≡ timeout_or_default v
timeout_twice v = ground arith

given_or_twice : (o : Option Bool) (b : Bool) → given_or o (given_or o b) ≡ given_or o b
given_or_twice none b = refl
given_or_twice (some c) b = refl

abbrev once : Config → HotspotSettings → Config
once cfg s = normalize_config (record cfg { hotspot = patched cfg.hotspot s })

given_interfaces_twice :
    (given old : List Bytes)
    → interfaces_or_default
        (given_interfaces given (interfaces_or_default (given_interfaces given old)))
      ≡ interfaces_or_default (given_interfaces given old)
given_interfaces_twice [] old = interfaces_twice old
given_interfaces_twice (x ∷ xs) old = refl

once-once : (cfg : Config) (s : HotspotSettings) → once (once cfg s) s ≡ once cfg s
unfolding normalize_config patched
once-once cfg s = rw (timeout_twice cfg.dns.timeout_sec) (
    rw (given_or_twice s.enabled cfg.hotspot.enabled) (
      rw (given_or_twice s.tcp cfg.hotspot.tcp) (
        rw (given_or_twice s.dns cfg.hotspot.dns)
          (rw (given_interfaces_twice s.interfaces cfg.hotspot.interfaces) refl))))

abbrev settled : Config → PatchResult
settled cfg = record { next = cfg; changed = []; restart_required = false }

patch_hotspot-settled :
    (cfg : Config) (s : HotspotSettings)
    → once cfg s ≡ cfg
    → patch_hotspot cfg (some s) ≡ settled cfg
unfolding patch_hotspot
patch_hotspot-settled cfg s e =
    let same : differs cfg.hotspot (once cfg s).hotspot ≡ false =
      ap (λ (c : Config). differs cfg.hotspot c.hotspot) e ∙ differs_self cfg.hotspot in
    rw same (ap settled e)

-- A patch that is applied again to the configuration that it gave changes nothing, names no
-- changed part, and asks for no restart.
pub apply_config_patch-apply_config_patch :
    (cfg : Config) (req : ConfigPatchRequest)
    → let next = (apply_config_patch cfg req).next in
      apply_config_patch next req ≡ record { next = next; changed = []; restart_required = false }
unfolding apply_config_patch patch_hotspot
apply_config_patch-apply_config_patch cfg req = elim (Option-cases req.hotspot) [
  | inl e ↦ rw e refl
  | inr (s, e) ↦ rw e (patch_hotspot-settled (once cfg s) s (once-once cfg s))
]
