-- ===== src/Tests/Profile.antt =====
-- Examples for the profiles.
use sshcustom_vpnchain.Base.{◌≡◌, refl, true, false, none, [], ◌∷◌, arith, is_some, codes}
use sshcustom_vpnchain.Base.Res.{ok}
use sshcustom_vpnchain.Tests.Data.{no_payload, home_ssh, home, one_profile}
use sshcustom_vpnchain.Profile.Data.{ProfilesFile, SaveProfileRequest}
use sshcustom_vpnchain.Profile.Transport.{normalize_mode, uses_http_proxy, uses_tls}
use sshcustom_vpnchain.Profile.Upsert.{id_of, edited, saved_profile, upsert_profile}
use sshcustom_vpnchain.Profile.Handlers.{
  Access, select_request, delete_request, save_request, served,
}
use sshcustom_vpnchain.Profile.WellFormed.{is_well_formed}
use sshcustom_vpnchain.Profile.WellFormed.Requests.{served-is_well_formed}
use sshcustom_vpnchain.Profile.Dialable.{upsert_profile-Dials, Dials}
use sshcustom_vpnchain.Base.Text.{trim, trim_left}
use sshcustom_vpnchain.Profile.Upsert.{store}

-- The profile is edited: another host behind TLS, and no password given.
abbrev edit : SaveProfileRequest
edit = record {
  id = codes "home";
  name = codes "Home";
  select = true;
  restart = false;
  ssh = record home_ssh { host = codes "new.home"; password = [] };
  mode = codes "SSH+SNI";
  http_proxy = none;
  tls = none;
  payload = no_payload;
}

-- The file after the edit.
abbrev edited_file : ProfilesFile
edited_file = store one_profile edit (codes "home") (codes "tls_sni")

edit_accepted : upsert_profile one_profile edit 0 ≡ ok edited_file
unfolding upsert_profile normalize_mode id_of trim trim_left
edit_accepted = refl

abbrev fine : Access
fine = record { loads = true; saves = true }

served-is_well_formed_example :
    is_well_formed
      (served
        (record { disk = one_profile; memory = one_profile })
        ((fine, save_request edit 0)
          ∷ (record fine { saves = false }, delete_request (codes "home"))
          ∷ (fine, select_request (codes "home"))
          ∷ [])).disk
    ≡ true
served-is_well_formed_example =
    served-is_well_formed (record { disk = one_profile; memory = one_profile })
      ((fine, save_request edit 0)
        ∷ (record fine { saves = false }, delete_request (codes "home"))
        ∷ (fine, select_request (codes "home"))
        ∷ [])
      (omega arith) refl

upsert_profile-Dials_example :
    let mode = normalize_mode (codes "SSH+SNI") in
    let p = saved_profile (id_of one_profile edit 0) edit mode (edited one_profile edit) in
    Dials p mode
    × ((uses_http_proxy p ≡ is_some p.transport.http_proxy)
        × (uses_tls p ≡ is_some p.transport.tls))
upsert_profile-Dials_example = upsert_profile-Dials one_profile edited_file edit 0 edit_accepted

abbrev home_selected : ProfilesFile
home_selected = record {
  selected_id = codes "home";
  profiles = record home { selected = true } ∷ [];
}
