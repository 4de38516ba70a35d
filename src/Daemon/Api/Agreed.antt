-- ===== src/Daemon/Api/Agreed.antt =====
-- The configuration that the daemon holds, the one on the disk, and the one that its state shows.
use sshcustom_vpnchain.Base.{
  ℕ, ◌≡◌, refl, sym, ap, subst, inl, inr, Bool, true, false, not, ◌&&◌, Option, none, some, List,
  [], ◌∷◌, Bool-cases, is_empty,
}
use sshcustom_vpnchain.Config.Data.{Config}
use sshcustom_vpnchain.Config.Patch.{
  normalize_config, ConfigPatchRequest, HotspotSettings, PatchResult, apply_config_patch,
  patch_hotspot, patched, differs,
}
use sshcustom_vpnchain.Config.Patching.{interfaces_twice, timeout_twice}
use sshcustom_vpnchain.Engine.State.{RouteInfo}
use sshcustom_vpnchain.Profile.Data.{Profile, ProfilesFile}
use sshcustom_vpnchain.Profile.Select.{selected_profile}
use sshcustom_vpnchain.Daemon.Api.{
  Runtime, ConfigAccess, is_stored, show_config, save_config, saved_as, save_runtime_config, Method,
  get, post, patch, other_method, ConfigAnswer, config_shown, config_updated, config_refused,
  update_answer, update_config, config_request, config_run, of_profile, initial_state, boot_with,
  booted,
}

normalize_config_twice : (c : Config) → normalize_config (normalize_config c) ≡ normalize_config c
unfolding normalize_config
normalize_config_twice c =
    rw (timeout_twice c.dns.timeout_sec) (rw (interfaces_twice c.hotspot.interfaces) refl)

-- The file would be read as the configuration that is held, and the state shows that one.
abbrev pub Agreed : Runtime → Type 0
Agreed r = (normalize_config r.disk ≡ r.cfg) × (show_config r.st r.cfg ≡ r.st)

abbrev AgreedIfSome : Option Runtime → Type 0
AgreedIfSome none = Unit
AgreedIfSome (some r) = Agreed r

boot_with-Agreed :
    (idle_mode : Bool) (now : ℕ) (ri : RouteInfo) (disk : Config) (sp : Option Profile)
    → AgreedIfSome (boot_with idle_mode now ri disk sp)
unfolding boot_with initial_state show_config of_profile
boot_with-Agreed true now ri disk none = (refl, refl)
boot_with-Agreed false now ri disk none = tt
boot_with-Agreed true now ri disk (some sp) = (refl, refl)
boot_with-Agreed false now ri disk (some sp) = (refl, refl)

booted-Agreed :
    (idle_mode : Bool) (now : ℕ) (ri : RouteInfo) (disk : Option Config) (pf : Option ProfilesFile)
    → AgreedIfSome (booted idle_mode now ri disk pf)
unfolding booted
booted-Agreed idle_mode now ri none pf = tt
booted-Agreed idle_mode now ri (some disk) none = tt
booted-Agreed idle_mode now ri (some disk) (some pf) =
    boot_with-Agreed idle_mode now ri disk (selected_profile pf)

saved-Agreed :
    (a : ConfigAccess) (r : Runtime) (next : Config) → AgreedIfSome (save_runtime_config a r next)
unfolding save_runtime_config save_config saved_as show_config
saved-Agreed a r next = elim (Bool-cases (is_stored a)) [
  | inl stored ↦ rw stored (normalize_config_twice next, refl)
  | inr failed ↦ rw failed tt
]

answer-Agreed :
    (r : Runtime) (req : ConfigPatchRequest) (p : PatchResult) (o : Option Runtime)
    → Agreed r
    → AgreedIfSome o
    → Agreed (update_answer r req p o).0
unfolding update_answer
answer-Agreed r req p none h k = h
answer-Agreed r req p (some updated) h k = k

update-Agreed :
    (a : ConfigAccess) (r : Runtime) (body : Option ConfigPatchRequest)
    → Agreed r
    → Agreed (update_config a r body).0
unfolding update_config
update-Agreed a r none h = h
update-Agreed a r (some req) h =
    let p = apply_config_patch r.cfg req in
    answer-Agreed r req p (save_runtime_config a r p.next) h (saved-Agreed a r p.next)

request-Agreed :
    (a : ConfigAccess) (r : Runtime) (m : Method) (body : Option ConfigPatchRequest)
    → Agreed r
    → Agreed (config_request a r m body).0
unfolding config_request
request-Agreed a r get body h = h
request-Agreed a r post body h = update-Agreed a r body h
request-Agreed a r patch body h = update-Agreed a r body h
request-Agreed a r other_method body h = h

run-Agreed :
    (r : Runtime) (requests : List (ConfigAccess × Method × Option ConfigPatchRequest))
    → Agreed r
    → Agreed (config_run r requests)
unfolding config_run
run-Agreed r [] h = h
run-Agreed r ((a, m, body) ∷ rest) h =
    run-Agreed (config_request a r m body).0 rest (request-Agreed a r m body h)

-- After any requests to /api/v1/config, whatever they ask and however their accesses to the file
-- end, the daemon's configuration, config.json and the state agree: the file, read again at the
-- next start, gives the configuration that the daemon holds, and the state shows that one. This
-- holds of any start of the daemon, also from a config.json that is not normalised.
pub config_run-Agreed :
    (idle_mode : Bool) (now : ℕ) (ri : RouteInfo) (disk : Option Config) (pf : Option ProfilesFile)
    → (r : Runtime) → (requests : List (ConfigAccess × Method × Option ConfigPatchRequest))
    → booted idle_mode now ri disk pf ≡ some r
    → Agreed (config_run r requests)
config_run-Agreed idle_mode now ri disk pf r requests h =
    run-Agreed r requests (subst AgreedIfSome h (booted-Agreed idle_mode now ri disk pf))

-- What an answer to a request says of what the daemon holds, before it and after it.
abbrev pub Truthful : Runtime → Runtime → ConfigAnswer → Type 0
Truthful r after (config_shown c) = (after ≡ r) × (c ≡ r.cfg)
Truthful r after (config_updated u) =
    (u.config ≡ after.cfg)
    × (u.config ≡ after.disk)
    × (u.restart_pending ≡ u.restart && not (is_empty u.changed))
Truthful r after (config_refused status) = after ≡ r

patched-normal :
    (c : Config) (o : Option HotspotSettings)
    → normalize_config c ≡ c
    → normalize_config (patch_hotspot c o).next ≡ (patch_hotspot c o).next
unfolding patch_hotspot
patched-normal c none h = h
patched-normal c (some s) h = normalize_config_twice (record c { hotspot = patched c.hotspot s })

patched-restarts :
    (c : Config) (o : Option HotspotSettings)
    → (patch_hotspot c o).restart_required ≡ not (is_empty (patch_hotspot c o).changed)
unfolding patch_hotspot
patched-restarts c none = refl
patched-restarts c (some s) =
    elim (Bool-cases
      (differs c.hotspot (normalize_config (record c { hotspot = patched c.hotspot s })).hotspot)) [
        | inl changes ↦ rw changes refl
        | inr settled ↦ rw settled refl
      ]

answer-Truthful :
    (a : ConfigAccess) (r : Runtime) (req : ConfigPatchRequest) (p : PatchResult)
    → normalize_config p.next ≡ p.next
    → p.restart_required ≡ not (is_empty p.changed)
    → Truthful r
        (update_answer r req p (save_runtime_config a r p.next)).0
        (update_answer r req p (save_runtime_config a r p.next)).1
unfolding update_answer save_runtime_config save_config saved_as
answer-Truthful a r req p normal asks = elim (Bool-cases (is_stored a)) [
  | inl stored ↦ rw stored (sym normal, sym normal, ap (◌&&◌ req.restart) asks)
  | inr failed ↦ rw failed refl
]

update-Truthful :
    (a : ConfigAccess) (r : Runtime) (body : Option ConfigPatchRequest)
    → normalize_config r.cfg ≡ r.cfg
    → Truthful r (update_config a r body).0 (update_config a r body).1
unfolding update_config apply_config_patch
update-Truthful a r none h = refl
update-Truthful a r (some req) h =
    answer-Truthful a r req (apply_config_patch r.cfg req) (patched-normal r.cfg req.hotspot h)
      (patched-restarts r.cfg req.hotspot)

request-Truthful :
    (a : ConfigAccess) (r : Runtime) (m : Method) (body : Option ConfigPatchRequest)
    → normalize_config r.cfg ≡ r.cfg
    → Truthful r (config_request a r m body).0 (config_request a r m body).1
unfolding config_request
request-Truthful a r get body h = (refl, refl)
request-Truthful a r post body h = update-Truthful a r body h
request-Truthful a r patch body h = update-Truthful a r body h
request-Truthful a r other_method body h = refl

-- Every answer of /api/v1/config is true, when the daemon's configuration is the one of its file. A
-- refusal leaves the daemon as it was, its file and its state included, whether the method, the
-- body or an access to the file is its reason; a GET shows the configuration that is held and
-- changes nothing; and the response to an update carries the configuration that is held and stored
-- from then on, and has a restart pending exactly when one was asked for and something has changed.
pub config_request-Truthful :
    (a : ConfigAccess) (r : Runtime) (m : Method) (body : Option ConfigPatchRequest)
    → Agreed r
    → Truthful r (config_request a r m body).0 (config_request a r m body).1
config_request-Truthful a r m body h =
    let normal : normalize_config r.cfg ≡ r.cfg =
      subst (λ c. normalize_config c ≡ c) h.0 (normalize_config_twice r.disk) in
    request-Truthful a r m body normal
