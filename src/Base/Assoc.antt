-- ===== src/Base/Assoc.antt =====
-- A Go map with string keys, as an association list in which a write replaces the entry it finds.
use mathlib.Core.Path.{◌≡◌, refl}
use mathlib.Core.Logic.{inl, inr}
use mathlib.Core.Bool.{Bool}
use mathlib.Core.Option.{Option, none, some}
use mathlib.Core.List.{List, [], ◌∷◌}
use native.Mathlib.Omega.{arith}
use sshcustom_vpnchain.Base.Tests.{if◌then◌else◌, Bool-cases}
use sshcustom_vpnchain.Base.ByteStrings.{Bytes, str_eq, str_eq_iff}

module _ {ℓ} {V : Type ℓ} where
  -- `m[k]`, with `ok`.
  unfoldable pub find : Bytes → List (Bytes × V) → Option V
  find k [] = none
  find k ((j, v) ∷ m) = if str_eq j k then some v else find k m

  -- `m[k] = v`.
  unfoldable pub put : Bytes → V → List (Bytes × V) → List (Bytes × V)
  put k v [] = (k, v) ∷ []
  put k v ((j, w) ∷ m) = if str_eq j k then (k, v) ∷ m else (j, w) ∷ put k v m

  -- `delete(m, k)` of every key that passes the test.
  unfoldable pub remove_if : (Bytes → Bool) → List (Bytes × V) → List (Bytes × V)
  remove_if p [] = []
  remove_if p ((j, w) ∷ m) = if p j then remove_if p m else (j, w) ∷ remove_if p m

  -- `delete(m, k)`.
  abbrev pub remove : Bytes → List (Bytes × V) → List (Bytes × V)
  remove k = remove_if (λ j. str_eq j k)

  pub find-put :
      (k j : Bytes) (v : V) (m : List (Bytes × V))
      → find j (put k v m) ≡ (if str_eq k j then some v else find j m)
  unfolding find put
  find-put k j v [] = refl
  find-put k j v ((i, w) ∷ m) =
      ground (arith, str_eq_iff k j, str_eq_iff i k, str_eq_iff i j, find-put k j v m)

  pub find-remove_if :
      (p : Bytes → Bool) (j : Bytes) (m : List (Bytes × V))
      → find j (remove_if p m) ≡ (if p j then none else find j m)
  unfolding find remove_if
  find-remove_if p j [] = ground arith
  find-remove_if p j ((i, w) ∷ m) = elim (Bool-cases (str_eq i j)) [
    | inl same ↦ ground (arith, str_eq_iff i j, find-remove_if p j m)
    | inr other ↦ ground (arith, find-remove_if p j m)
  ]
