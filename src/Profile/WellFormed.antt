-- ===== src/Profile/WellFormed.antt =====
-- The invariant of profiles.json under the requests that change it.
pub mod Requests
use sshcustom_vpnchain.Base.{
  ℕ, ◌≤◌, ◌≡◌, refl, inl, inr, Bool, true, false, not, ◌&&◌, ◌||◌, Option, none, some, List, [],
  ◌∷◌, ◌++◌, map, arith, Bool-cases, length, is_empty, keep, any, Bytes, codes, str_eq, str_eq_iff,
}
use sshcustom_vpnchain.Base.Res.{ok, ◌>>=◌, ◌>>◌}
use sshcustom_vpnchain.Base.Text.{trim_space}
use sshcustom_vpnchain.Profile.Data.{Profile, ProfilesFile, SaveProfileRequest}
use sshcustom_vpnchain.Profile.Names.{slugify, used}
use sshcustom_vpnchain.Profile.Select.{first, has_id, mark, select_profile_by_id}
use sshcustom_vpnchain.Profile.Upsert.{
  id_of, edited, saved_profile, replace_first, place, select_saved, store,
}
use sshcustom_vpnchain.Profile.Handlers.{delete_profile, has_other_id}
use sshcustom_vpnchain.Profile.Fresh.{unique_profile_id-used}
use sshcustom_vpnchain.Base.Decimal.{itoa}
use sshcustom_vpnchain.Profile.Upsert.{name_of}

abbrev pub distinct : List Profile → Bool
distinct [] = true
distinct (p ∷ ps) = not (used p.id ps) && distinct ps

-- Either nothing is selected, or a profile that exists.
abbrev pub selects : Bytes → List Profile → Bool
selects id ps = is_empty id || used id ps

abbrev pub is_well_formed : ProfilesFile → Bool
is_well_formed pf = distinct pf.profiles && selects pf.selected_id pf.profiles

used-map-mark : (k id : Bytes) (ps : List Profile) → used k (map (mark id) ps) ≡ used k ps
used-map-mark k id [] = refl
used-map-mark k id (p ∷ ps) = ground (arith, used-map-mark k id ps)

distinct-map-mark : (id : Bytes) (ps : List Profile) → distinct (map (mark id) ps) ≡ distinct ps
distinct-map-mark id [] = refl
distinct-map-mark id (p ∷ ps) = ground (arith, used-map-mark p.id id ps, distinct-map-mark id ps)

used-append :
    (k : Bytes) (ps : List Profile) (p : Profile)
    → used k (ps ++ p ∷ []) ≡ used k ps || str_eq p.id k
used-append k [] p = ground arith
used-append k (q ∷ ps) p = ground (arith, used-append k ps p)

distinct-append :
    (ps : List Profile) (p : Profile)
    → used p.id ps ≡ false
    → distinct ps ≡ true
    → distinct (ps ++ p ∷ []) ≡ true
distinct-append [] p u d = refl
distinct-append (q ∷ ps) p u d =
    ground (
      arith,
      used-append q.id ps p,
      str_eq_iff q.id p.id,
      str_eq_iff p.id q.id,
      distinct-append ps p,
    )

used-replace_first :
    (k : Bytes) (p : Profile) (ps : List Profile) → used k (replace_first p.id p ps) ≡ used k ps
unfolding replace_first
used-replace_first k p [] = refl
used-replace_first k p (q ∷ ps) = ground (arith, str_eq_iff q.id p.id, used-replace_first k p ps)

distinct-replace_first :
    (p : Profile) (ps : List Profile) → distinct (replace_first p.id p ps) ≡ distinct ps
unfolding replace_first
distinct-replace_first p [] = refl
distinct-replace_first p (q ∷ ps) =
    ground (arith, str_eq_iff q.id p.id, used-replace_first q.id p ps, distinct-replace_first p ps)

used-keep :
    (k id : Bytes) (ps : List Profile)
    → used k (keep (has_other_id id) ps) ≡ used k ps && not (str_eq id k)
used-keep k id [] = refl
used-keep k id (p ∷ ps) =
    ground (arith, str_eq_iff p.id id, str_eq_iff p.id k, str_eq_iff id k, used-keep k id ps)

distinct-keep :
    (id : Bytes) (ps : List Profile)
    → distinct ps ≡ true
    → distinct (keep (has_other_id id) ps) ≡ true
distinct-keep id [] d = refl
distinct-keep id (p ∷ ps) d = ground (arith, used-keep p.id id ps, distinct-keep id ps)

pub is_well_formed-select :
    (pf : ProfilesFile) (id : Bytes)
    → is_well_formed pf ≡ true
    → is_well_formed (select_profile_by_id pf id).0 ≡ true
unfolding select_profile_by_id
is_well_formed-select pf id w =
    let same : distinct (map (mark (trim_space id)) pf.profiles) ≡ distinct pf.profiles =
      distinct-map-mark (trim_space id) pf.profiles in
    elim (Bool-cases (is_empty (trim_space id))) [
      | inl e ↦ rw e w
      | inr e ↦ elim (Bool-cases (any (has_id (trim_space id)) pf.profiles)) [
        | inl f ↦ ground (arith, same, used-map-mark (trim_space id) (trim_space id) pf.profiles)
        | inr f ↦ ground (arith, same, used-map-mark pf.selected_id (trim_space id) pf.profiles)
      ]
    ]

pub is_well_formed-delete :
    (pf next : ProfilesFile) (id : Bytes)
    → is_well_formed pf ≡ true
    → delete_profile pf id ≡ ok next
    → is_well_formed next ≡ true
unfolding delete_profile
is_well_formed-delete pf next id w h = ground (
  arith,
  distinct-keep id pf.profiles,
  used-keep pf.selected_id id pf.profiles,
  str_eq_iff pf.selected_id id,
  str_eq_iff id pf.selected_id,
)

first-used : (id : Bytes) (ps : List Profile) → first (has_id id) ps ≡ none → used id ps ≡ false
first-used id [] h = refl
first-used id (p ∷ ps) h = ground (arith, first-used id ps)

selects-append :
    (id : Bytes) (ps : List Profile) (p : Profile)
    → selects id ps ≡ true
    → selects id (ps ++ p ∷ []) ≡ true
selects-append id ps p h = ground (arith, used-append id ps p)

is_well_formed-place :
    (pf : ProfilesFile) (p : Profile) (old : Option Profile)
    → (old ≡ none → used p.id pf.profiles ≡ false)
    → is_well_formed pf ≡ true
    → is_well_formed (record pf { profiles = place p.id p old pf.profiles }) ≡ true
unfolding place
is_well_formed-place pf p none fresh w =
    ground (
      arith,
      fresh refl,
      distinct-append pf.profiles p,
      selects-append pf.selected_id pf.profiles p,
    )
is_well_formed-place pf p (some q) fresh w =
    ground
      (arith, distinct-replace_first p pf.profiles, used-replace_first pf.selected_id p pf.profiles)

pub edited-none :
    (pf : ProfilesFile) (req : SaveProfileRequest) (now : ℕ)
    → length pf.profiles ≤ 9998
    → edited pf req ≡ none
    → used (id_of pf req now) pf.profiles ≡ false
unfolding edited id_of
edited-none pf req now few h = ground (
  arith,
  first-used (trim_space req.id) pf.profiles,
  unique_profile_id-used pf.profiles (slugify (name_of req)) now few,
  unique_profile_id-used pf.profiles (codes "profile-" ++ itoa now) now few,
)

pub is_well_formed-store :
    (pf : ProfilesFile) (req : SaveProfileRequest) (now : ℕ) (mode : Bytes)
    → length pf.profiles ≤ 9998
    → is_well_formed pf ≡ true
    → is_well_formed (store pf req (id_of pf req now) mode) ≡ true
unfolding store select_saved saved_profile
is_well_formed-store pf req now mode few w =
    let id = id_of pf req now in
    let old = edited pf req in
    let p = saved_profile id req mode old in
    let placed : is_well_formed (record pf { profiles = place id p old pf.profiles }) ≡ true =
      is_well_formed-place pf p old (edited-none pf req now few) w in
    ground (
      arith,
      placed,
      is_well_formed-select (record pf { profiles = place id p old pf.profiles }) id placed,
    )
