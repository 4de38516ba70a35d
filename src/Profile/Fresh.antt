-- ===== src/Profile/Fresh.antt =====
-- `uniqueProfileID` gives an ID that no profile has.
use sshcustom_vpnchain.Base.{
  ℕ, zero, suc, ◌+◌, ◌≤◌, ◌<◌, ◌≡◌, refl, ap, ◌≢◌, inl, inr, true, false, none, some, List, [], ◌∷◌,
  ◌++◌, arith, if◌then◌else◌, Option-cases, length, length-append, any, all, Bytes, codes, str_eq,
  str_eq_iff,
}
use sshcustom_vpnchain.Base.Decimal.{itoa}
use sshcustom_vpnchain.Profile.Data.{Profile}
use sshcustom_vpnchain.Profile.Names.{
  used, numbered, first_free, or_stamped, slug_base, unique_profile_id,
}
use sshcustom_vpnchain.Base.Decimal.{itoa-injective}

-- The list without the first profile of an ID.
without : Bytes → List Profile → List Profile
without id [] = []
without id (p ∷ ps) = if str_eq p.id id then ps else p ∷ without id ps

length-without :
    (id : Bytes) (ps : List Profile) → used id ps ≡ true → suc (length (without id ps)) ≡ length ps
unfolding without
length-without id [] h = ground arith
length-without id (p ∷ ps) h = ground (arith, length-without id ps)

used-without :
    (id j : Bytes) (ps : List Profile)
    → str_eq id j ≡ false
    → used j ps ≡ true
    → used j (without id ps) ≡ true
unfolding without
used-without id j [] ne h = ground arith
used-without id j (p ∷ ps) ne h =
    ground (arith, used-without id j ps ne, str_eq_iff p.id id, str_eq_iff p.id j)

-- IDs that are different from one another.
abbrev AllDifferent : List Bytes → Type 0
AllDifferent [] = Unit {0}
AllDifferent (k ∷ ks) = (any (str_eq k) ks ≡ false) × AllDifferent ks

all-used-without :
    (id : Bytes) (ks : List Bytes) (ps : List Profile)
    → any (str_eq id) ks ≡ false
    → all (λ k. used k ps) ks ≡ true
    → all (λ k. used k (without id ps)) ks ≡ true
all-used-without id [] ps ne h = refl
all-used-without id (k ∷ ks) ps ne h =
    ground (arith, used-without id k ps, all-used-without id ks ps)

-- Pigeonhole: as many profiles as there are different IDs in use.
length-le-used :
    (ks : List Bytes) (ps : List Profile)
    → AllDifferent ks
    → all (λ k. used k ps) ks ≡ true
    → length ks ≤ length ps
length-le-used [] ps d h = omega arith
length-le-used (k ∷ ks) ps d h =
    let here : used k ps ≡ true = ground arith in
    let rest : all (λ j. used j ps) ks ≡ true = ground arith in
    omega (
      arith,
      length-without k ps here,
      length-le-used ks (without k ps) d.1 (all-used-without k ks ps d.0 rest),
    )

-- The candidates of the loop.
abbrev candidates : ℕ → ℕ → Bytes → List Bytes
candidates zero i base = []
candidates (suc rounds) i base = numbered base i ∷ candidates rounds (i + 1) base

first_free-none :
    (rounds i : ℕ) (base : Bytes) (ps : List Profile)
    → first_free rounds i base ps ≡ none
    → all (λ k. used k ps) (candidates rounds i base) ≡ true
unfolding first_free
first_free-none zero i base ps h = refl
first_free-none (suc rounds) i base ps h = ground (arith, first_free-none rounds (i + 1) base ps)

first_free-some :
    (rounds i : ℕ) (base id : Bytes) (ps : List Profile)
    → first_free rounds i base ps ≡ some id
    → used id ps ≡ false
unfolding first_free
first_free-some zero i base id ps h = ground arith
first_free-some (suc rounds) i base id ps h =
    ground (arith, first_free-some rounds (i + 1) base id ps)

length-candidates : (rounds i : ℕ) (base : Bytes) → length (candidates rounds i base) ≡ rounds
length-candidates zero i base = refl
length-candidates (suc rounds) i base = ap suc (length-candidates rounds (i + 1) base)

append_cancel : (xs ys zs : Bytes) → xs ++ ys ≡ xs ++ zs → ys ≡ zs
append_cancel [] ys zs e = e
append_cancel (x ∷ xs) ys zs e = append_cancel xs ys zs (cc)

numbered-injective : (base : Bytes) (i j : ℕ) → numbered base i ≡ numbered base j → i ≡ j
numbered-injective base i j e = itoa-injective i j (
    append_cancel (codes "-") (itoa i) (itoa j)
      (append_cancel base (codes "-" ++ itoa i) (codes "-" ++ itoa j) e))

candidates_above :
    (rounds i j : ℕ) (base : Bytes)
    → j < i
    → any (str_eq (numbered base j)) (candidates rounds i base) ≡ false
candidates_above zero i j base h = refl
candidates_above (suc rounds) i j base h = ground (
  arith,
  str_eq_iff (numbered base j) (numbered base i),
  numbered-injective base j i,
  candidates_above rounds (i + 1) j base,
)

numbered-ne : (base : Bytes) (i : ℕ) → base ≢ numbered base i
numbered-ne base i e = ground (arith, ap length e, length-append base (codes "-" ++ itoa i))

candidates_other :
    (rounds i : ℕ) (base : Bytes) → any (str_eq base) (candidates rounds i base) ≡ false
candidates_other zero i base = refl
candidates_other (suc rounds) i base = ground (
  arith,
  str_eq_iff base (numbered base i),
  numbered-ne base i,
  candidates_other rounds (i + 1) base,
)

candidates-AllDifferent : (rounds i : ℕ) (base : Bytes) → AllDifferent (candidates rounds i base)
candidates-AllDifferent zero i base = tt
candidates-AllDifferent (suc rounds) i base = (
  candidates_above rounds (i + 1) i base (omega arith),
  candidates-AllDifferent rounds (i + 1) base,
)

first_free-used :
    (rounds i now : ℕ) (base : Bytes) (ps : List Profile)
    → used base ps ≡ true
    → length ps ≤ rounds
    → used (or_stamped base now (first_free rounds i base ps)) ps ≡ false
unfolding or_stamped
first_free-used rounds i now base ps taken few = elim (Option-cases (first_free rounds i base ps)) [
  | inl stuck ↦ absurd (
      omega (
        arith,
        length-candidates rounds i base,
        length-le-used (base ∷ candidates rounds i base) ps
            (candidates_other rounds i base, candidates-AllDifferent rounds i base)
            (ground (arith, first_free-none rounds i base ps stuck)),
      ))
  | inr (id, found) ↦ rw found (first_free-some rounds i base id ps found)
]

either_free :
    (ps : List Profile) (id other : Bytes)
    → (used id ps ≡ true → used other ps ≡ false)
    → used (if used id ps then other else id) ps ≡ false
either_free ps id other h = ground arith

-- With at most 9998 profiles, `uniqueProfileID` gives an ID that no profile has.
pub unique_profile_id-used :
    (ps : List Profile) (base : Bytes) (now : ℕ)
    → length ps ≤ 9998
    → used (unique_profile_id ps base now) ps ≡ false
unfolding unique_profile_id
unique_profile_id-used ps base now few =
    either_free ps (slug_base base)
      (or_stamped (slug_base base) now (first_free 9998 2 (slug_base base) ps))
      (λ taken. first_free-used 9998 2 now (slug_base base) ps taken few)
