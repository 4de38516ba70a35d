-- ===== src/Profile/Handlers.antt =====
-- main.go: the handlers of /api/v1/profile/select, /api/v1/profile/delete and /api/v1/profile/save:
-- each reads profiles.json again, changes what it read, writes it, and only then replaces the
-- daemon's own copy.
use sshcustom_vpnchain.Base.{
  ℕ, Bool, not, Option, none, some, List, [], ◌∷◌, if◌then◌else◌, is_empty, keep, Bytes, str_eq,
}
use sshcustom_vpnchain.Base.Res.{Res, ok, err, ◌>>=◌, ◌>>◌, refuse}
use sshcustom_vpnchain.Profile.Data.{Profile, ProfilesFile, SaveProfileRequest}
use sshcustom_vpnchain.Profile.Names.{used}
use sshcustom_vpnchain.Profile.Select.{SelectError, select_profile_by_id}
use sshcustom_vpnchain.Profile.Upsert.{SaveError, upsert_profile}

-- profiles.json and the daemon's `pf`.
pub record Stored : Type 0 where
  pub disk : ProfilesFile
  pub memory : ProfilesFile

-- How the two accesses of a request to profiles.json end.
pub record Access : Type 0 where
  pub loads : Bool
  pub saves : Bool

pub data ProfileError : Type 0 where
  load_failed save_failed : ProfileError
  selecting : SelectError → ProfileError
  saving : SaveError → ProfileError
  id_missing profile_not_found : ProfileError

-- A request, with the time at which it is served.
pub data ProfileRequest : Type 0 where
  select_request : Bytes → ProfileRequest
  delete_request : Bytes → ProfileRequest
  save_request : SaveProfileRequest → ℕ → ProfileRequest

abbrev pub of_select : ProfilesFile × Option SelectError → Res ProfileError ProfilesFile
of_select (pf, none) = ok pf
of_select (pf, some e) = err (selecting e)

abbrev pub of_save : Res SaveError ProfilesFile → Res ProfileError ProfilesFile
of_save (ok pf) = ok pf
of_save (err e) = err (saving e)

abbrev pub has_other_id : Bytes → Profile → Bool
has_other_id id p = not (str_eq p.id id)

-- What the delete handler does to the file that it read.
unfoldable pub delete_profile : ProfilesFile → Bytes → Res ProfileError ProfilesFile
delete_profile pf id = do
  refuse (not (used id pf.profiles)) profile_not_found
  ok (record {
    selected_id = if str_eq pf.selected_id id then [] else pf.selected_id;
    profiles = keep (has_other_id id) pf.profiles;
  })

-- What a request does to the file that it read.
unfoldable pub change : ProfilesFile → ProfileRequest → Res ProfileError ProfilesFile
unfolding delete_profile
change pf (select_request id) = of_select (select_profile_by_id pf id)
change pf (delete_request id) = delete_profile pf id
change pf (save_request req now) = of_save (upsert_profile pf req now)

-- `saveProfiles` and `pf = latest`.
abbrev pub save_to : Access → Stored → ProfilesFile → Res ProfileError Stored
save_to a s next = do refuse (not a.saves) save_failed; ok (record { disk = next; memory = next })

-- What a handler refuses before it reads the file.
abbrev pub early : ProfileRequest → Res ProfileError (Unit {0})
early (select_request id) = ok tt
early (delete_request id) = refuse (is_empty id) id_missing
early (save_request req now) = ok tt

-- A request that gets an answer without an error, or the error.
unfoldable pub handle : Access → Stored → ProfileRequest → Res ProfileError Stored
unfolding change
handle a s r = do early r; refuse (not a.loads) load_failed; change s.disk r >>= save_to a s

-- What a request leaves behind.
abbrev pub left : Stored → Res ProfileError Stored → Stored
left s (ok next) = next
left s (err e) = s

-- A sequence of requests, one after another as `profileMu` orders them.
unfoldable pub served : Stored → List (Access × ProfileRequest) → Stored
served s [] = s
served s ((a, r) ∷ rs) = served (left s (handle a s r)) rs
