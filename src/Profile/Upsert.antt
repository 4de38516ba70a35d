-- ===== src/Profile/Upsert.antt =====
-- main.go: `upsertProfile`.
use sshcustom_vpnchain.Base.{
  ℕ, Bool, false, not, ◌||◌, Option, none, some, List, [], ◌∷◌, ◌++◌, if◌then◌else◌, is_empty,
  nonpositive, exceeds, Bytes, codes, str_eq,
}
use sshcustom_vpnchain.Base.Text.{trim_space}
use sshcustom_vpnchain.Base.Res.{Res, ok, ◌>>◌, refuse}
use sshcustom_vpnchain.Profile.Data.{Profile, ProfilesFile, Ssh, SaveProfileRequest}
use sshcustom_vpnchain.Profile.Names.{unique_profile_id, slugify}
use sshcustom_vpnchain.Profile.Select.{select_profile_by_id, has_id, first}
use sshcustom_vpnchain.Profile.Transport.{normalize_mode, build_transport}
use sshcustom_vpnchain.Base.{not}
use sshcustom_vpnchain.Base.Decimal.{itoa}

pub data SaveError : Type 0 where
  host_required port_range username_required invalid_mode : SaveError

abbrev pub name_of : SaveProfileRequest → Bytes
name_of req =
    let name = trim_space req.name in if is_empty name then codes "SSHCustom Profile" else name

-- `creatingNew`.
abbrev pub creates : SaveProfileRequest → Bool
creates req = is_empty (trim_space req.id)

-- The ID under which the profile is saved; `now` is `time.Now().Unix()`.
unfoldable pub id_of : ProfilesFile → SaveProfileRequest → ℕ → Bytes
id_of pf req now =
    let fresh = unique_profile_id pf.profiles (slugify (name_of req)) now in
    let stamped = unique_profile_id pf.profiles (codes "profile-" ++ itoa now) now in
    if not (creates req) then trim_space req.id else if is_empty fresh then stamped else fresh

-- The profile at `idx`, if the request edits one that is there.
unfoldable pub edited : ProfilesFile → SaveProfileRequest → Option Profile
edited pf req = if creates req then none else first (has_id (trim_space req.id)) pf.profiles

unfoldable pub old_password : Option Profile → Bytes
old_password none = []
old_password (some p) = p.ssh.password

-- The connection data of the request, with the old password and the default type of login.
unfoldable pub filled_ssh : SaveProfileRequest → Option Profile → Ssh
unfolding old_password
filled_ssh req old = record (req.ssh) {
  password = if is_empty req.ssh.password then old_password old else req.ssh.password;
  auth_type = if is_empty req.ssh.auth_type then codes "password" else req.ssh.auth_type;
}

-- The profile that is stored.
unfoldable pub saved_profile : Bytes → SaveProfileRequest → Bytes → Option Profile → Profile
saved_profile id req mode old = record {
  id = id;
  name = name_of req;
  selected = false;
  ssh = filled_ssh req old;
  transport = build_transport mode req.payload req.http_proxy req.tls (filled_ssh req old);
}

-- `pf.Profiles[idx] = profile`, at the first profile with the ID.
unfoldable pub replace_first : Bytes → Profile → List Profile → List Profile
replace_first id p [] = []
replace_first id p (q ∷ ps) = if str_eq q.id id then p ∷ ps else q ∷ replace_first id p ps

unfoldable pub place : Bytes → Profile → Option Profile → List Profile → List Profile
place id p none ps = ps ++ p ∷ []
place id p (some old) ps = replace_first id p ps

-- `if req.Select || pf.SelectedID == "" || pf.SelectedID == req.ID`, with the error ignored.
unfoldable pub select_saved : ProfilesFile → Bytes → Bool → ProfilesFile
select_saved pf id wanted =
    if wanted || is_empty pf.selected_id || str_eq pf.selected_id id
    then (select_profile_by_id pf id).0
    else pf

unfoldable pub store : ProfilesFile → SaveProfileRequest → Bytes → Bytes → ProfilesFile
unfolding place
store pf req id mode =
    let old = edited pf req in
    select_saved (record pf { profiles = place id (saved_profile id req mode old) old pf.profiles })
      id req.select

-- `upsertProfile`; on an error the file is as it was.
unfoldable pub upsert_profile : ProfilesFile → SaveProfileRequest → ℕ → Res SaveError ProfilesFile
upsert_profile pf req now = do
  refuse (is_empty (trim_space req.ssh.host)) host_required
  refuse (nonpositive req.ssh.port || exceeds req.ssh.port 65535) port_range
  refuse (is_empty (trim_space req.ssh.username)) username_required
  refuse (is_empty (normalize_mode req.mode)) invalid_mode
  ok (store pf req (id_of pf req now) (normalize_mode req.mode))
