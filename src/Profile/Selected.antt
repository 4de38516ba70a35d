-- ===== src/Profile/Selected.antt =====
-- Selecting a profile, and reading the selection back.
use sshcustom_vpnchain.Base.{
  ◌≡◌, refl, ap, ◌∙◌, inl, inr, Bool, true, false, not, ◌||◌, none, some, List, [], ◌∷◌, map, arith,
  Bool-cases, is_empty, any, all, Bytes, str_eq, str_eq_iff,
}
use sshcustom_vpnchain.Base.Text.{trim_space}
use sshcustom_vpnchain.Profile.Data.{Profile, ProfilesFile}
use sshcustom_vpnchain.Profile.Select.{first, has_id, selected_profile, mark, select_profile_by_id}
use mathlib.Core.Option
use sshcustom_vpnchain.Profile.Select.{by_selected_id}

first-map-mark :
    (k id : Bytes) (ps : List Profile)
    → first (has_id k) (map (mark id) ps) ≡ Option.map (mark id) (first (has_id k) ps)
first-map-mark k id [] = refl
first-map-mark k id (p ∷ ps) = ground (arith, first-map-mark k id ps)

first-any :
    (k : Bytes) (ps : List Profile)
    → any (has_id k) ps ≡ true
    → (p : Profile) × (first (has_id k) ps ≡ some p)
first-any k [] h = absurd (ground arith)
first-any k (p ∷ ps) h = elim (Bool-cases (has_id k p)) [
  | inl here ↦ (p, rw here refl)
  | inr there ↦ let rest = first-any k ps (ground arith) in (rest.0, rw there rest.1)
]

first-passes :
    (f : Profile → Bool) (ps : List Profile) (p : Profile) → first f ps ≡ some p → f p ≡ true
first-passes f [] p h = absurd (ground arith)
first-passes f (q ∷ ps) p h = ground (arith, first-passes f ps p)

flags :
    (id : Bytes) (ps : List Profile)
    → all (λ (p : Profile). not p.selected || str_eq p.id id) (map (mark id) ps) ≡ true
flags id [] = refl
flags id (p ∷ ps) = ground (arith, flags id ps)

-- Selecting a profile that exists: the profile that the daemon then runs with is the first of that
-- ID, marked as selected, and no profile of another ID is marked.
pub selected_profile-select :
    (pf next : ProfilesFile) (given : Bytes)
    → select_profile_by_id pf given ≡ (next, none)
    → (p : Profile) × ((first (has_id (trim_space given)) pf.profiles ≡ some p)
        × ((selected_profile next ≡ some (record p { selected = true }))
            × (all (λ (q : Profile). not q.selected || str_eq q.id p.id) next.profiles ≡ true)))
unfolding select_profile_by_id selected_profile by_selected_id
selected_profile-select pf next given h =
    let id = trim_space given in
    let there : any (has_id id) pf.profiles ≡ true = ground arith in
    let nonempty : is_empty id ≡ false = ground arith in
    let found = first-any id pf.profiles there in
    let result : next ≡ record { selected_id = id; profiles = map (mark id) pf.profiles } =
      ground arith in
    let p = found.0 in
    let read : first (has_id id) (map (mark id) pf.profiles) ≡ some (mark id p) =
      first-map-mark id id pf.profiles ∙ ap (Option.map (mark id)) found.1 in
    let same : str_eq p.id id ≡ true = first-passes (has_id id) pf.profiles p found.1 in
    let same_id : p.id ≡ id = ground (arith, str_eq_iff p.id id) in
    let chosen : selected_profile next ≡ some (record p { selected = true }) =
      ap selected_profile result ∙ rw nonempty (rw read (rw same refl)) in
    let only : all (λ (q : Profile). not q.selected || str_eq q.id p.id) next.profiles ≡ true =
      rw result (rw same_id (flags id pf.profiles)) in
    (p, (found.1, (chosen, only)))
