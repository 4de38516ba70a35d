-- ===== src/Dnsx/Servers.antt =====
-- The list that `NormalizeServers` gives.
use sshcustom_vpnchain.Base.{
  ◌≡◌, refl, subst, Bool, true, false, not, ◌&&◌, ◌||◌, List, [], ◌∷◌, ◌++◌, arith, is_empty, any,
  Bytes, str_eq, str_eq_iff,
}
use sshcustom_vpnchain.Base.Text.{trim_space}
use sshcustom_vpnchain.Dnsx.{is_member, with_port, normalized_onto, normalize_servers}

abbrev pub is_unique : List Bytes → Bool
is_unique [] = true
is_unique (x ∷ xs) = not (is_member x xs) && is_unique xs

pub is_member-append :
    (s t : Bytes) (xs : List Bytes) → is_member s (xs ++ t ∷ []) ≡ is_member s xs || str_eq t s
is_member-append s t [] = ground arith
is_member-append s t (x ∷ xs) = ground (arith, is_member-append s t xs)

pub is_unique-append :
    (t : Bytes) (xs : List Bytes)
    → is_member t xs ≡ false
    → is_unique xs ≡ true
    → is_unique (xs ++ t ∷ []) ≡ true
is_unique-append t [] m u = refl
is_unique-append t (x ∷ xs) m u =
    ground (arith, is_member-append x t xs, str_eq_iff x t, str_eq_iff t x, is_unique-append t xs)

onto_unique :
    (out servers : List Bytes)
    → is_unique out ≡ true
    → is_unique (normalized_onto out servers) ≡ true
unfolding normalized_onto
onto_unique out [] u = u
onto_unique out (s ∷ rest) u = ground (
  arith,
  onto_unique out rest u,
  onto_unique (out ++ with_port (trim_space s) ∷ []) rest,
  is_unique-append (with_port (trim_space s)) out,
)

-- A given server that is not blank and stands for `s`.
abbrev pub stands_for : Bytes → Bytes → Bool
stands_for s given = not (is_empty (trim_space given)) && str_eq (with_port (trim_space given)) s

is_member_same :
    (s t : Bytes) (xs : List Bytes)
    → str_eq t s ≡ true
    → is_member t xs ≡ true
    → is_member s xs ≡ true
is_member_same s t xs e m = subst (λ x. is_member x xs ≡ true) (ground (arith, str_eq_iff t s)) m

onto-member :
    (s : Bytes) (out servers : List Bytes)
    → is_member s (normalized_onto out servers) ≡ is_member s out || any (stands_for s) servers
unfolding normalized_onto
onto-member s out [] = ground arith
onto-member s out (t ∷ rest) = ground (
  arith,
  onto-member s out rest,
  onto-member s (out ++ with_port (trim_space t) ∷ []) rest,
  is_member-append s (with_port (trim_space t)) out,
  is_member_same s (with_port (trim_space t)) out,
)

-- `NormalizeServers` gives each server once, and gives exactly those that stand in the list it was
-- given: trimmed, with port 53 where they name none, and without the blank ones.
pub normalize_servers-members :
    (servers : List Bytes) (s : Bytes)
    → (is_unique (normalize_servers servers) ≡ true)
      × (is_member s (normalize_servers servers) ≡ any (stands_for s) servers)
unfolding normalize_servers
normalize_servers-members servers s = (onto_unique [] servers refl, onto-member s [] servers)
