-- ===== src/Profile/WellFormed/Requests.antt =====
-- The invariant of profiles.json over sequences of requests.
use sshcustom_vpnchain.Base.{
  ℕ, suc, ◌+◌, ◌≤◌, ◌≡◌, refl, sym, ap, subst, inl, inr, Bool, true, false, Option, none, some,
  List, [], ◌∷◌, map, arith, length, length-append, is_empty, keep, nonpositive, Bytes,
}
use sshcustom_vpnchain.Base.Res.{ok}
use sshcustom_vpnchain.Base.Text.{trim_space}
use sshcustom_vpnchain.Profile.Data.{Profile, ProfilesFile, SaveProfileRequest}
use sshcustom_vpnchain.Profile.Select.{mark, select_profile_by_id}
use sshcustom_vpnchain.Profile.Upsert.{
  id_of, edited, saved_profile, replace_first, place, select_saved, store, upsert_profile,
}
use sshcustom_vpnchain.Profile.Handlers.{
  Stored, Access, ProfileRequest, select_request, delete_request, save_request, delete_profile,
  change, handle, left, served, has_other_id,
}
use sshcustom_vpnchain.Profile.Transport.{normalize_mode}
use sshcustom_vpnchain.Base.Res.{Res-cases}
use sshcustom_vpnchain.Profile.WellFormed.{
  is_well_formed, is_well_formed-select, is_well_formed-delete, is_well_formed-store,
}

-- What an accepted request says of itself, and the file that it leaves.
pub upsert_profile-ok :
    (pf next : ProfilesFile) (req : SaveProfileRequest) (now : ℕ)
    → upsert_profile pf req now ≡ ok next
    → (is_empty (trim_space req.ssh.host) ≡ false)
      × ((nonpositive req.ssh.port ≡ false)
          × ((is_empty (normalize_mode req.mode) ≡ false)
              × (next ≡ store pf req (id_of pf req now) (normalize_mode req.mode))))
unfolding upsert_profile
upsert_profile-ok pf next req now h = ground arith

is_well_formed-change :
    (pf next : ProfilesFile) (r : ProfileRequest)
    → length pf.profiles ≤ 9998
    → is_well_formed pf ≡ true
    → change pf r ≡ ok next
    → is_well_formed next ≡ true
unfolding change
is_well_formed-change pf next (select_request id) few w h =
    ground (arith, is_well_formed-select pf id w)
is_well_formed-change pf next (delete_request id) few w h = is_well_formed-delete pf next id w h
is_well_formed-change pf next (save_request req now) few w h =
    let saved : upsert_profile pf req now ≡ ok next = ground arith in
    subst (λ (f : ProfilesFile). is_well_formed f ≡ true)
      (sym (upsert_profile-ok pf next req now saved).1.1.1)
      (is_well_formed-store pf req now (normalize_mode req.mode) few w)

length-map : (f : Profile → Profile) (ps : List Profile) → length (map f ps) ≡ length ps
length-map f [] = refl
length-map f (p ∷ ps) = ap suc (length-map f ps)

length-keep : (f : Profile → Bool) (ps : List Profile) → length (keep f ps) ≤ length ps
length-keep f [] = omega arith
length-keep f (p ∷ ps) = ground (arith, length-keep f ps)

length-replace_first :
    (id : Bytes) (p : Profile) (ps : List Profile) → length (replace_first id p ps) ≡ length ps
unfolding replace_first
length-replace_first id p [] = refl
length-replace_first id p (q ∷ ps) = ground (arith, length-replace_first id p ps)

length-place :
    (id : Bytes) (p : Profile) (old : Option Profile) (ps : List Profile)
    → length (place id p old ps) ≤ suc (length ps)
unfolding place
length-place id p none ps = omega (arith, length-append ps (p ∷ []))
length-place id p (some q) ps = omega (arith, length-replace_first id p ps)

length-select :
    (pf : ProfilesFile) (id : Bytes)
    → length (select_profile_by_id pf id).0.profiles ≡ length pf.profiles
unfolding select_profile_by_id
length-select pf id = ground (arith, length-map (mark (trim_space id)) pf.profiles)

length-store :
    (pf : ProfilesFile) (req : SaveProfileRequest) (id mode : Bytes)
    → length (store pf req id mode).profiles ≤ suc (length pf.profiles)
unfolding store select_saved
length-store pf req id mode =
    let old = edited pf req in
    let p = saved_profile id req mode old in
    ground (
      arith,
      length-place id p old pf.profiles,
      length-select (record pf { profiles = place id p old pf.profiles }) id,
    )

length-change :
    (pf next : ProfilesFile) (r : ProfileRequest)
    → change pf r ≡ ok next
    → length next.profiles ≤ suc (length pf.profiles)
unfolding change delete_profile
length-change pf next (select_request id) h = ground (arith, length-select pf id)
length-change pf next (delete_request id) h =
    ground (arith, length-keep (has_other_id id) pf.profiles)
length-change pf next (save_request req now) h =
    let saved : upsert_profile pf req now ≡ ok next = ground arith in
    subst (λ (f : ProfilesFile). length f.profiles ≤ suc (length pf.profiles))
      (sym (upsert_profile-ok pf next req now saved).1.1.1)
      (length-store pf req (id_of pf req now) (normalize_mode req.mode))

is_well_formed-handle :
    (a : Access) (s : Stored) (r : ProfileRequest)
    → length s.disk.profiles ≤ 9998
    → is_well_formed s.disk ≡ true
    → (is_well_formed (left s (handle a s r)).disk ≡ true)
      × (length (left s (handle a s r)).disk.profiles ≤ suc (length s.disk.profiles))
unfolding handle
is_well_formed-handle a s r few w = elim (Res-cases (change s.disk r)) [
  | inl (e, h) ↦ ground arith
  | inr (next, h) ↦
      ground (arith, is_well_formed-change s.disk next r few w h, length-change s.disk next r h)
]

-- However the requests that change profiles.json follow one another, and whichever of their reads
-- and writes fail: from a well-formed file (its IDs are different, and the selected ID is empty or
-- that of a profile), the file stays well-formed, as long as its profiles and the requests are at
-- most 9998 together.
pub served-is_well_formed :
    (s : Stored) (rs : List (Access × ProfileRequest))
    → length s.disk.profiles + length rs ≤ 9998
    → is_well_formed s.disk ≡ true
    → is_well_formed (served s rs).disk ≡ true
unfolding served
served-is_well_formed s [] few w = w
served-is_well_formed s ((a, r) ∷ rs) few w =
    let once = is_well_formed-handle a s r (omega arith) w in
    served-is_well_formed (left s (handle a s r)) rs (omega (arith, once.1)) once.0
