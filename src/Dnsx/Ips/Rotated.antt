-- ===== src/Dnsx/Ips/Rotated.antt =====
-- `RotateIPs` only changes the order.
use sshcustom_vpnchain.Base.{
  ℕ, zero, suc, ◌%◌, ◌≡◌, refl, sym, ap, ◌∙◌, subst, inl, inr, true, List, [], ◌∷◌, ◌++◌,
  append-nil, arith, leb, Bool-cases, length, length-append, take, drop, take-length-append,
  drop-length-append, Bytes,
}
use mathlib.Core.List.{Perm, perm_middle}
use mathlib.Core.List.Perm
use mathlib.Core.Quot
use mathlib.Core.Quot.{Quot}
use sshcustom_vpnchain.Dnsx.Ips.{rotate_ips}
use sshcustom_vpnchain.Base.{length-append}

append_comm-Perm {ℓ} : {A : Type ℓ} (xs ys : List A) → Perm (xs ++ ys) (ys ++ xs)
append_comm-Perm [] ys = subst (Perm ys) (sym (append-nil ys)) (Perm.refl ys)
append_comm-Perm (x ∷ xs) ys =
    Perm.trans (Perm.cons' refl (append_comm-Perm xs ys)) (Perm.symm (perm_middle ys xs))

take-drop-append {ℓ} : {A : Type ℓ} (n : ℕ) (xs : List A) → take n xs ++ drop n xs ≡ xs
take-drop-append zero xs = refl
take-drop-append (suc n) [] = refl
take-drop-append (suc n) (x ∷ xs) = ap (◌∷◌ x) (take-drop-append n xs)

-- The addresses of a list, as often as they stand in it, without their order.
abbrev pub Addresses : Type 0
Addresses = Quot (λ (xs ys : List Bytes). Perm xs ys)

abbrev pub addresses : List Bytes → Addresses
addresses xs = Quot.mk xs

rotate_ips-Perm : (now : ℕ) (xs : List Bytes) → Perm (rotate_ips now xs) xs
unfolding rotate_ips
rotate_ips-Perm now xs = elim (Bool-cases (leb (length xs) 1)) [
  | inl few ↦ rw few (Perm.refl xs)
  | inr many ↦ rw many (
      subst (Perm (drop (now % length xs) xs ++ take (now % length xs) xs))
        (take-drop-append (now % length xs) xs)
        (append_comm-Perm (drop (now % length xs) xs) (take (now % length xs) xs)))
]

alone :
    (before after : List Bytes) (x : Bytes)
    → leb (length (before ++ x ∷ after)) 1 ≡ true
    → before ++ x ∷ after ≡ x ∷ (after ++ before)
alone [] [] x h = refl
alone [] (y ∷ after) x h = absurd (ground arith)
alone (y ∷ before) after x h = absurd (ground (arith, length-append before (x ∷ after)))

rotated_at :
    (now : ℕ) (before after : List Bytes) (x : Bytes)
    → now % length (before ++ x ∷ after) ≡ length before
    → rotate_ips now (before ++ x ∷ after) ≡ x ∷ (after ++ before)
unfolding rotate_ips
rotated_at now before after x e =
    let xs = before ++ x ∷ after in
    elim (Bool-cases (leb (length xs) 1)) [
      | inl few ↦ rw few (alone before after x few)
      | inr many ↦
          rw (many, e)
            (ap (λ t. t ++ take (length before) xs) (drop-length-append before (x ∷ after))
              ∙ ap (λ t. x ∷ (after ++ t)) (take-length-append before (x ∷ after)))
    ]

-- `RotateIPs` spreads the load without losing or adding an address: at any time its list has the
-- same addresses, each as often, so that the two lists are equal where their order is forgotten; and
-- when the time leaves the remainder of an address's place, that address comes first, followed by
-- those behind it and then by those before it, so that every address has its turn.
pub rotate_ips-addresses :
    (now : ℕ) (before after : List Bytes) (x : Bytes)
    → now % length (before ++ x ∷ after) ≡ length before
    → (addresses (rotate_ips now (before ++ x ∷ after)) ≡ addresses (before ++ x ∷ after))
      × (rotate_ips now (before ++ x ∷ after) ≡ x ∷ (after ++ before))
rotate_ips-addresses now before after x e =
    (Quot.sound (rotate_ips-Perm now (before ++ x ∷ after)), rotated_at now before after x e)
