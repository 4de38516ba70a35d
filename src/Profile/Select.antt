-- ===== src/Profile/Select.antt =====
-- main.go: `selectedProfile` and `selectProfileByID`.
use sshcustom_vpnchain.Base.{
  Bool, true, Option, none, some, List, [], ◌∷◌, map, if◌then◌else◌, is_empty, any, Bytes, str_eq,
}
use sshcustom_vpnchain.Base.Text.{trim_space}
use sshcustom_vpnchain.Profile.Data.{Profile, ProfilesFile}

-- The first element that passes a test.
abbrev pub first {ℓ} : {A : Type ℓ} → (A → Bool) → List A → Option A
first p [] = none
first p (x ∷ xs) = if p x then some x else first p xs

abbrev pub or_else {ℓ} : {A : Type ℓ} → Option A → Option A → Option A
or_else (some a) b = some a
or_else none b = b

abbrev pub has_id : Bytes → Profile → Bool
has_id id p = str_eq p.id id

unfoldable pub by_selected_id : ProfilesFile → Option Profile
by_selected_id pf =
    if is_empty pf.selected_id then none else first (has_id pf.selected_id) pf.profiles

-- `selectedProfile`.
unfoldable pub selected_profile : ProfilesFile → Option Profile
unfolding by_selected_id
selected_profile pf = or_else (by_selected_id pf) (
    or_else (first (λ (p : Profile). p.selected) pf.profiles)
      (first (λ (p : Profile). true) pf.profiles))

pub data SelectError : Type 0 where
  id_required : SelectError
  not_found : Bytes → SelectError

abbrev pub mark : Bytes → Profile → Profile
mark id p = record p { selected = str_eq p.id id }

-- `selectProfileByID`: the file after it, and its error. The flags are written before the search
-- is known to fail.
unfoldable pub select_profile_by_id : ProfilesFile → Bytes → ProfilesFile × Option SelectError
select_profile_by_id pf given =
    let id = trim_space given in
    let marked = map (mark id) pf.profiles in
    if is_empty id
    then (pf, some id_required)
    else if any (has_id id) pf.profiles
    then (record { selected_id = id; profiles = marked }, none)
    else (record pf { profiles = marked }, some (not_found id))
