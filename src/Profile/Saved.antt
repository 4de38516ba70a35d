-- ===== src/Profile/Saved.antt =====
-- What a saved profile holds, and how it dials.
use sshcustom_vpnchain.Base.{
  ℕ, ◌≤◌, ◌≡◌, refl, sym, ap, ◌∙◌, subst, inl, inr, true, false, Option, none, some, List, [], ◌∷◌,
  ◌++◌, map, arith, if◌then◌else◌, Bool-cases, Option-cases, is_some, length, is_empty, Bytes,
  str_eq, str_eq_iff, str_eq_refl,
}
use sshcustom_vpnchain.Base.Res.{ok}
use sshcustom_vpnchain.Base.Text.{trim_space}
use sshcustom_vpnchain.Profile.Data.{Profile, ProfilesFile, SaveProfileRequest}
use sshcustom_vpnchain.Profile.Names.{used}
use sshcustom_vpnchain.Profile.Select.{first, has_id, mark, select_profile_by_id}
use sshcustom_vpnchain.Profile.Transport.{normalize_mode}
use sshcustom_vpnchain.Profile.Upsert.{
  id_of, edited, saved_profile, filled_ssh, old_password, replace_first, place, select_saved, store,
  upsert_profile,
}
use sshcustom_vpnchain.Profile.WellFormed.Requests.{upsert_profile-ok}
use mathlib.Core.Option
use sshcustom_vpnchain.Profile.WellFormed.{edited-none}

-- What a profile is apart from the flag that says whether it is selected.
abbrev pub content : Profile → Profile
content p = record p { selected = false }

-- The profile of an ID.
abbrev pub profile_of : Bytes → List Profile → Option Profile
profile_of id ps = Option.map content (first (has_id id) ps)

profile_of-map-mark :
    (k id : Bytes) (ps : List Profile) → profile_of k (map (mark id) ps) ≡ profile_of k ps
profile_of-map-mark k id [] = refl
profile_of-map-mark k id (p ∷ ps) = ground (arith, profile_of-map-mark k id ps)

profile_of-select :
    (pf : ProfilesFile) (k id : Bytes)
    → profile_of k (select_profile_by_id pf id).0.profiles ≡ profile_of k pf.profiles
unfolding select_profile_by_id
profile_of-select pf k id = ground (arith, profile_of-map-mark k (trim_space id) pf.profiles)

profile_of-append :
    (k : Bytes) (ps : List Profile) (p : Profile)
    → str_eq p.id k ≡ false
    → profile_of k (ps ++ p ∷ []) ≡ profile_of k ps
profile_of-append k [] p ne = ground arith
profile_of-append k (q ∷ ps) p ne = ground (arith, profile_of-append k ps p ne)

profile_of-append_self :
    (ps : List Profile) (p : Profile)
    → used p.id ps ≡ false
    → profile_of p.id (ps ++ p ∷ []) ≡ some (content p)
profile_of-append_self [] p u = ground (arith, str_eq_refl p.id)
profile_of-append_self (q ∷ ps) p u = ground (arith, profile_of-append_self ps p)

profile_of-replace :
    (k : Bytes) (p : Profile) (ps : List Profile)
    → str_eq p.id k ≡ false
    → profile_of k (replace_first p.id p ps) ≡ profile_of k ps
unfolding replace_first
profile_of-replace k p [] ne = refl
profile_of-replace k p (q ∷ ps) ne =
    ground (arith, str_eq_iff q.id p.id, profile_of-replace k p ps ne)

profile_of-replace_self :
    (p : Profile) (ps : List Profile)
    → used p.id ps ≡ true
    → profile_of p.id (replace_first p.id p ps) ≡ some (content p)
unfolding replace_first
profile_of-replace_self p [] u = ground arith
profile_of-replace_self p (q ∷ ps) u =
    ground (arith, str_eq_refl p.id, profile_of-replace_self p ps)

edited-used :
    (id : Bytes) (ps : List Profile) (p : Profile)
    → first (has_id id) ps ≡ some p
    → used id ps ≡ true
edited-used id [] p h = ground arith
edited-used id (q ∷ ps) p h = ground (arith, edited-used id ps p)

profile_of-place :
    (k : Bytes) (p : Profile) (old : Option Profile) (ps : List Profile)
    → used p.id ps ≡ is_some old
    → profile_of k (place p.id p old ps)
      ≡ (if str_eq p.id k then some (content p) else profile_of k ps)
unfolding place
profile_of-place k p none ps u = elim (Bool-cases (str_eq p.id k)) [
  | inl same ↦ rw same (
      subst (λ j. profile_of j (ps ++ p ∷ []) ≡ some (content p))
        (ground (arith, str_eq_iff p.id k)) (profile_of-append_self ps p u))
  | inr other ↦ rw other (profile_of-append k ps p other)
]
profile_of-place k p (some q) ps u = elim (Bool-cases (str_eq p.id k)) [
  | inl same ↦ rw same (
      subst (λ j. profile_of j (replace_first p.id p ps) ≡ some (content p))
        (ground (arith, str_eq_iff p.id k)) (profile_of-replace_self p ps u))
  | inr other ↦ rw other (profile_of-replace k p ps other)
]

edited-some :
    (pf : ProfilesFile) (req : SaveProfileRequest) (now : ℕ) (p : Profile)
    → edited pf req ≡ some p
    → used (id_of pf req now) pf.profiles ≡ true
unfolding edited id_of
edited-some pf req now p h = ground (arith, edited-used (trim_space req.id) pf.profiles p)

used-edited :
    (pf : ProfilesFile) (req : SaveProfileRequest) (now : ℕ)
    → length pf.profiles ≤ 9998
    → used (id_of pf req now) pf.profiles ≡ is_some (edited pf req)
used-edited pf req now few = elim (Option-cases (edited pf req)) [
  | inl fresh ↦ rw fresh (edited-none pf req now few fresh)
  | inr (p, found) ↦ rw found (edited-some pf req now p found)
]

pub upsert_profile-profile_of :
    (pf next : ProfilesFile) (req : SaveProfileRequest) (now : ℕ) (k : Bytes)
    → length pf.profiles ≤ 9998
    → upsert_profile pf req now ≡ ok next
    → profile_of k next.profiles ≡ (
        if str_eq (id_of pf req now) k
        then some (saved_profile (id_of pf req now) req (normalize_mode req.mode) (edited pf req))
        else profile_of k pf.profiles)
unfolding store select_saved saved_profile
upsert_profile-profile_of pf next req now k few h =
    let id = id_of pf req now in
    let mode = normalize_mode req.mode in
    let p = saved_profile id req mode (edited pf req) in
    let placed : ProfilesFile = record pf { profiles = place id p (edited pf req) pf.profiles } in
    let stored : profile_of k (store pf req id mode).profiles ≡ profile_of k placed.profiles =
      ground (arith, profile_of-select placed k id) in
    ap (λ (f : ProfilesFile). profile_of k f.profiles) (upsert_profile-ok pf next req now h).1.1.1
    ∙ stored
    ∙ profile_of-place k p (edited pf req) pf.profiles (used-edited pf req now few)

abbrev pub password_of : Option Profile → Option Bytes
password_of o = Option.map (λ (p : Profile). p.ssh.password) o

edited-first :
    (pf : ProfilesFile) (req : SaveProfileRequest) (now : ℕ) (p : Profile)
    → edited pf req ≡ some p
    → first (has_id (id_of pf req now)) pf.profiles ≡ some p
unfolding edited id_of
edited-first pf req now p h = ground arith

kept_password :
    (pf : ProfilesFile) (req : SaveProfileRequest) (now : ℕ) (mode : Bytes)
    → length pf.profiles ≤ 9998
    → is_empty req.ssh.password ≡ true
    → used (id_of pf req now) pf.profiles ≡ true
    → some (filled_ssh req (edited pf req)).password
      ≡ password_of (profile_of (id_of pf req now) pf.profiles)
unfolding filled_ssh old_password
kept_password pf req now mode few blank u = elim (Option-cases (edited pf req)) [
  | inl fresh ↦ absurd (ground (arith, edited-none pf req now few fresh))
  | inr (p, found) ↦ ground (arith, edited-first pf req now p found)
]

-- A request without a password, if it is accepted, leaves the password of every profile that was
-- there as it was, the one that it edits included (in a file of at most 9998 profiles).
pub upsert_profile-password :
    (pf next : ProfilesFile) (req : SaveProfileRequest) (now : ℕ) (k : Bytes)
    → length pf.profiles ≤ 9998
    → is_empty req.ssh.password ≡ true
    → used k pf.profiles ≡ true
    → upsert_profile pf req now ≡ ok next
    → password_of (profile_of k next.profiles) ≡ password_of (profile_of k pf.profiles)
unfolding saved_profile
upsert_profile-password pf next req now k few blank u h =
    let mode = normalize_mode req.mode in
    ap password_of (upsert_profile-profile_of pf next req now k few h)
    ∙ elim (Bool-cases (str_eq (id_of pf req now) k)) [
      | inl same ↦
          let e : id_of pf req now ≡ k = ground (arith, str_eq_iff (id_of pf req now) k) in
          rw same (
            kept_password pf req now mode few blank
              (subst (λ j. used j pf.profiles ≡ true) (sym e) u)
            ∙ ap (λ j. password_of (profile_of j pf.profiles)) e)
      | inr other ↦ rw other refl
    ]
