-- ===== src/Base/Decimal.antt =====
-- Decimal text of a number: `strconv.Itoa`, and `%d`.
use Prim.Native.Nat.{ℕ, zero, suc, ◌+◌, ◌/◌, ◌%◌}
use mathlib.Core.List.{[], ◌∷◌}
use sshcustom_vpnchain.Base.Tests.{ltb, if◌then◌else◌}
use sshcustom_vpnchain.Base.Int.{ℤ, pos, negsuc}
use sshcustom_vpnchain.Base.ByteStrings.{Bytes}
use mathlib.Core.Logic.{inl, inr}
use sshcustom_vpnchain.Base.Tests.{Bool-cases}
use native.Mathlib.Omega.{arith}
use mathlib.Core.Path.{◌≡◌, sym, ap, ◌∙◌}
use Prim.Native.Nat.{◌*◌, ◌-◌, ◌<◌}
use mathlib.Core.Option.{Option, none, some}
use sshcustom_vpnchain.Base.Tests.{leb, ◌==◌}
use mathlib.Core.Bool.{Bool, true, false, ◌&&◌}
use Prim.Native.Nat.{◌^◌}
use mathlib.Core.Path.{refl}
use mathlib.Core.Logic.{◌≢◌}
use sshcustom_vpnchain.Base.Lists.{all, is_empty}
use mathlib.Core.List.{◌++◌}

-- The digits of `n` before `rest`, by recursion on fuel: a number has no more digits than its value
-- has units, so `suc n` rounds are enough.
unfoldable pub digits_onto : ℕ → ℕ → Bytes → Bytes
digits_onto zero n rest = rest
digits_onto (suc f) n rest =
    let more = digits_onto f (n / 10) ((b'0' + n % 10) ∷ rest) in
    if ltb n 10 then (b'0' + n) ∷ rest else more

unfoldable pub itoa : ℕ → Bytes
unfolding digits_onto
itoa n = digits_onto (suc n) n []

-- `strconv.Itoa` of an `int`.
unfoldable pub itoa_int : ℤ → Bytes
unfolding itoa
itoa_int (pos n) = itoa n
itoa_int (negsuc n) = b'-' ∷ itoa (suc n)

abbrev pub is_digit : ℕ → Bool
is_digit c = leb b'0' c && leb c b'9'

-- `strconv.Atoi`: the digits after `acc`, and a sign; a value of 63 bits or more is an error.
unfoldable pub digits_value : ℕ → Bytes → Option ℕ
digits_value acc [] = if ltb acc (2 ^ 63) then some acc else none
digits_value acc (c ∷ s) =
    let rest = digits_value (acc * 10 + (c - b'0')) s in if is_digit c then rest else none

abbrev pub as_negative : ℕ → ℤ
as_negative zero = pos 0
as_negative (suc n) = negsuc n

abbrev pub signed : (ℕ → ℤ) → Option ℕ → Option ℤ
signed f none = none
signed f (some n) = some (f n)

abbrev pub unsigned_digits : Bytes → Option ℕ
unsigned_digits [] = none
unsigned_digits (c ∷ s) = digits_value 0 (c ∷ s)

unfoldable pub atoi : Bytes → Option ℤ
unfolding digits_value
atoi [] = none
atoi (c ∷ s) =
    if c == b'-'
    then signed as_negative (unsigned_digits s)
    else if c == b'+'
    then signed pos (unsigned_digits s)
    else signed pos (unsigned_digits (c ∷ s))

-- The number that a text of digits spells, after the digits of `acc`.
abbrev pub spelled : ℕ → Bytes → ℕ
spelled acc [] = acc
spelled acc (c ∷ s) = spelled (acc * 10 + (c - b'0')) s

spelled-digits_onto :
    (f n : ℕ) (rest : Bytes) → n < f → spelled 0 (digits_onto f n rest) ≡ spelled n rest
unfolding digits_onto
spelled-digits_onto zero n rest h = absurd (omega arith)
spelled-digits_onto (suc f) n rest h = elim (Bool-cases (ltb n 10)) [
  | inl small ↦ rw small (ap (λ k. spelled k rest) (omega arith))
  | inr large ↦
      let less : n / 10 < f = ground arith in
      let whole : n / 10 * 10 + (b'0' + n % 10 - b'0') ≡ n = omega arith in
      rw large (
        spelled-digits_onto f (n / 10) ((b'0' + n % 10) ∷ rest) less
        ∙ ap (λ k. spelled k rest) whole)
]

-- The decimal text of a number spells it.
pub spelled-itoa : (n : ℕ) → spelled 0 (itoa n) ≡ n
unfolding itoa
spelled-itoa n = spelled-digits_onto (suc n) n [] (omega arith)

pub itoa-injective : (m n : ℕ) → itoa m ≡ itoa n → m ≡ n
itoa-injective m n e = sym (spelled-itoa m) ∙ ap (spelled 0) e ∙ spelled-itoa n

all_digits-onto : (f n : ℕ) (rest : Bytes) → all is_digit (digits_onto f n rest) ≡ all is_digit rest
unfolding digits_onto
all_digits-onto zero n rest = refl
all_digits-onto (suc f) n rest = elim (Bool-cases (ltb n 10)) [
  | inl small ↦ let digit : is_digit (b'0' + n) ≡ true = ground arith in rw (small, digit) refl
  | inr large ↦
      let digit : is_digit (b'0' + n % 10) ≡ true = ground arith in
      rw large (
        all_digits-onto f (n / 10) ((b'0' + n % 10) ∷ rest)
        ∙ ap (λ b. b && all is_digit rest) digit)
]

pub all_digits-itoa : (n : ℕ) → all is_digit (itoa n) ≡ true
unfolding itoa
all_digits-itoa n = all_digits-onto (suc n) n []

digits_value-spelled :
    (acc : ℕ) (s : Bytes)
    → all is_digit s ≡ true
    → spelled acc s < 2 ^ 63
    → digits_value acc s ≡ some (spelled acc s)
unfolding digits_value
digits_value-spelled acc [] h small =
    let fits : ltb acc (2 ^ 63) ≡ true = ground arith in rw fits refl
digits_value-spelled acc (c ∷ s) h small =
    let digit : is_digit c ≡ true = ground arith in
    rw digit (digits_value-spelled (acc * 10 + (c - b'0')) s (ground arith) small)

atoi-digits :
    (n : ℕ) (s : Bytes)
    → all is_digit s ≡ true
    → spelled 0 s ≡ n
    → s ≢ []
    → n < 2 ^ 63
    → atoi s ≡ some (pos n)
unfolding atoi
atoi-digits n [] h e filled small = absurd (filled refl)
atoi-digits n (c ∷ s) h e filled small =
    let minus : c == b'-' ≡ false = ground arith in
    let plus : c == b'+' ≡ false = ground arith in
    let value = digits_value-spelled 0 (c ∷ s) h (omega (arith, e)) in
    rw (minus, plus) (ap (signed pos) (value ∙ ap some e))

is_empty-digits_onto :
    (f n : ℕ) (rest s : Bytes)
    → is_empty (rest ++ s) ≡ false
    → is_empty (digits_onto f n rest ++ s) ≡ false
unfolding digits_onto
is_empty-digits_onto zero n rest s h = h
is_empty-digits_onto (suc f) n rest s h = elim (Bool-cases (ltb n 10)) [
  | inl small ↦ rw small refl
  | inr large ↦ rw large (is_empty-digits_onto f (n / 10) ((b'0' + n % 10) ∷ rest) s refl)
]

pub is_empty-itoa : (n : ℕ) (s : Bytes) → is_empty (itoa n ++ s) ≡ false
unfolding itoa digits_onto
is_empty-itoa n s = elim (Bool-cases (ltb n 10)) [
  | inl small ↦ rw small refl
  | inr large ↦ rw large (is_empty-digits_onto n (n / 10) ((b'0' + n % 10) ∷ []) s refl)
]

itoa-filled : (n : ℕ) → itoa n ≢ []
itoa-filled n e =
    let filled : true ≡ false = ap (λ s. is_empty (s ++ [])) (sym e) ∙ is_empty-itoa n [] in
    absurd (ground arith)

-- `strconv.Atoi` reads what `strconv.Itoa` prints.
pub atoi-itoa : (n : ℕ) → n < 2 ^ 63 → atoi (itoa n) ≡ some (pos n)
atoi-itoa n h = atoi-digits n (itoa n) (all_digits-itoa n) (spelled-itoa n) (itoa-filled n) h
