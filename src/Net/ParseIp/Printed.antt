-- ===== src/Net/ParseIp/Printed.antt =====
-- `net.ParseIP` reads what `net.IP.String` prints.
use sshcustom_vpnchain.Base.{
  ℕ, zero, suc, ◌+◌, ◌-◌, ◌*◌, ◌/◌, ◌%◌, ◌≤◌, ◌<◌, ◌≡◌, refl, sym, ap, ◌∙◌, inl, inr, true, false,
  ◌&&◌, ◌||◌, some, List, [], ◌∷◌, ◌++◌, append-nil, arith, ltb, ◌==◌, Bool-cases, length, is_empty,
  Bytes,
}
use sshcustom_vpnchain.Base.Decimal.{digits_onto, itoa}
use sshcustom_vpnchain.Base.Decimal.{digits_onto}
use sshcustom_vpnchain.Net.Ip.{ipv4, ipv4_string}
use sshcustom_vpnchain.Net.ParseIp.{ipv4_fields, parse_ipv4, is_dotted, parse_ip}
use sshcustom_vpnchain.Base.Decimal.{is_digit}
use sshcustom_vpnchain.Base.Decimal.{is_empty-itoa}

digit-step :
    (fields : List ℕ) (value n k v : ℕ) (s : Bytes)
    → k < 10
    → v ≡ value * 10 + k
    → v ≤ 255
    → (n ≡ 1 → 0 < value)
    → ipv4_fields fields value n ((b'0' + k) ∷ s) ≡ ipv4_fields fields v (suc n) s
unfolding ipv4_fields
digit-step fields value n k v s small e fits h =
    let plain : is_digit (b'0' + k) ≡ true = ground arith in
    let fine : (n == 1 && value == 0) || ltb 255 (value * 10 + (b'0' + k - b'0')) ≡ false =
      ground arith in
    let same : value * 10 + (b'0' + k - b'0') ≡ v = omega arith in rw (plain, fine, same) refl

one_digit : (f n : ℕ) (rest : Bytes) → 0 < f → n < 10 → digits_onto f n rest ≡ (b'0' + n) ∷ rest
unfolding digits_onto
one_digit zero n rest p h = absurd (omega arith)
one_digit (suc f) n rest p h = let small : ltb n 10 ≡ true = ground arith in rw small refl

more_digits :
    (f n : ℕ) (rest : Bytes)
    → 10 ≤ n
    → digits_onto (suc f) n rest ≡ digits_onto f (n / 10) ((b'0' + n % 10) ∷ rest)
unfolding digits_onto
more_digits f n rest h = let large : ltb n 10 ≡ false = ground arith in rw large refl

-- The value and the digits of a field, as `itoa` prints it.
field :
    (fields : List ℕ) (v : ℕ) (s : Bytes)
    → v ≤ 255
    → (n : ℕ) × (ipv4_fields fields 0 0 (itoa v ++ s) ≡ ipv4_fields fields v (suc n) s)
unfolding itoa
field fields v s h = elim (Bool-cases (ltb v 10)) [
  | inl small ↦
      let printed = one_digit (suc v) v [] (omega arith) (ground arith) in
      (
        0,
        ap (λ t. ipv4_fields fields 0 0 (t ++ s)) printed
            ∙ digit-step fields 0 0 v v s (ground arith) (omega arith) h (ground arith),
      )
  | inr large ↦ elim (Bool-cases (ltb v 100)) [
    | inl small ↦
        let first = more_digits v v [] (ground arith) in
        let printed =
          first ∙ one_digit v (v / 10) ((b'0' + v % 10) ∷ []) (ground arith) (ground arith) in
        (
          1,
          ap (λ t. ipv4_fields fields 0 0 (t ++ s)) printed
              ∙ digit-step fields 0 0 (v / 10) (v / 10) ((b'0' + v % 10) ∷ s) (ground arith)
                  (omega arith) (omega arith) (ground arith)
              ∙ digit-step fields (v / 10) 1 (v % 10) v s (omega arith) (omega arith) h
                  (ground arith),
        )
    | inr larger ↦
        let first = more_digits v v [] (ground arith) in
        let rest = (b'0' + v % 10) ∷ [] in
        let more = (b'0' + v / 10 % 10) ∷ rest in
        let fuel : v ≡ suc (v - 1) = ground arith in
        let second : digits_onto v (v / 10) rest ≡ digits_onto (v - 1) (v / 10 / 10) more =
          ap (λ f. digits_onto f (v / 10) rest) fuel
          ∙ more_digits (v - 1) (v / 10) rest (ground arith) in
        let printed =
          first ∙ second ∙ one_digit (v - 1) (v / 10 / 10) more (ground arith) (omega arith) in
        (
          2,
          ap (λ t. ipv4_fields fields 0 0 (t ++ s)) printed
              ∙ digit-step fields 0 0 (v / 10 / 10) (v / 10 / 10)
                  ((b'0' + v / 10 % 10) ∷ (b'0' + v % 10) ∷ s) (omega arith) (omega arith)
                  (omega arith) (ground arith)
              ∙ digit-step fields (v / 10 / 10) 1 (v / 10 % 10) (v / 10) ((b'0' + v % 10) ∷ s)
                  (omega arith) (omega arith) (omega arith) (ground arith)
              ∙ digit-step fields (v / 10) 2 (v % 10) v s (omega arith) (omega arith) h
                  (ground arith),
        )
  ]
]

dot-step :
    (fields : List ℕ) (value n : ℕ) (s : Bytes)
    → is_empty s ≡ false
    → length fields < 3
    → ipv4_fields fields value (suc n) (b'.' ∷ s) ≡ ipv4_fields (value ∷ fields) 0 0 s
unfolding ipv4_fields
dot-step fields value n s filled few =
    let free : suc n == 0 || is_empty s || length fields == 3 ≡ false = ground arith in rw free refl

is_dotted-digit : (d : ℕ) (s : Bytes) → d < 10 → is_dotted ((b'0' + d) ∷ s) ≡ is_dotted s
unfolding is_dotted
is_dotted-digit d s h =
    let dot : (b'0' + d) == b'.' ≡ false = ground arith in
    let colon : (b'0' + d) == b':' ≡ false = ground arith in rw (dot, colon) refl

is_dotted-digits_onto :
    (f n : ℕ) (rest s : Bytes) → is_dotted (digits_onto f n rest ++ s) ≡ is_dotted (rest ++ s)
unfolding digits_onto
is_dotted-digits_onto zero n rest s = refl
is_dotted-digits_onto (suc f) n rest s = elim (Bool-cases (ltb n 10)) [
  | inl small ↦ rw small (is_dotted-digit n (rest ++ s) (ground arith))
  | inr large ↦ rw large (
      is_dotted-digits_onto f (n / 10) ((b'0' + n % 10) ∷ rest) s
      ∙ is_dotted-digit (n % 10) (rest ++ s) (omega arith))
]

is_dotted-itoa : (n : ℕ) (s : Bytes) → is_dotted (itoa n ++ (b'.' ∷ s)) ≡ true
unfolding itoa is_dotted
is_dotted-itoa n s = is_dotted-digits_onto (suc n) n [] (b'.' ∷ s)

-- Each of the three fields before the last.
field-dot :
    (fields : List ℕ) (v : ℕ) (s : Bytes)
    → v ≤ 255
    → is_empty s ≡ false
    → length fields < 3
    → ipv4_fields fields 0 0 (itoa v ++ (b'.' ∷ s)) ≡ ipv4_fields (v ∷ fields) 0 0 s
field-dot fields v s h filled few =
    let f = field fields v (b'.' ∷ s) h in f.1 ∙ dot-step fields v f.0 s filled few

parse_ipv4-ipv4_string :
    (a b c d : ℕ)
    → a ≤ 255
    → b ≤ 255
    → c ≤ 255
    → d ≤ 255
    → parse_ipv4 (ipv4_string a b c d) ≡ some (a ∷ b ∷ c ∷ d ∷ [])
unfolding parse_ipv4 ipv4_string
parse_ipv4-ipv4_string a b c d ha hb hc hd =
    let s3 = itoa c ++ (b'.' ∷ itoa d) in
    let s2 = itoa b ++ (b'.' ∷ s3) in
    let filled : is_empty (itoa d) ≡ false =
      ap is_empty (sym (append-nil (itoa d))) ∙ is_empty-itoa d [] in
    let last = field (c ∷ b ∷ a ∷ []) d [] hd in
    field-dot [] a s2 ha (is_empty-itoa b (b'.' ∷ s3)) (omega arith)
    ∙ field-dot (a ∷ []) b s3 hb (is_empty-itoa c (b'.' ∷ itoa d)) (omega arith)
    ∙ field-dot (b ∷ a ∷ []) c (itoa d) hc filled (omega arith)
    ∙ ap (ipv4_fields (c ∷ b ∷ a ∷ []) 0 0) (sym (append-nil (itoa d)))
    ∙ last.1

-- `net.ParseIP` reads the text that `net.IP.String` prints of an IPv4 address back as that address.
pub parse_ip-ipv4_string :
    (a b c d : ℕ)
    → a ≤ 255
    → b ≤ 255
    → c ≤ 255
    → d ≤ 255
    → parse_ip (ipv4_string a b c d) ≡ some (ipv4 a b c d)
unfolding parse_ip ipv4_string
parse_ip-ipv4_string a b c d ha hb hc hd =
    let dotted = is_dotted-itoa a (itoa b ++ (b'.' ∷ (itoa c ++ (b'.' ∷ itoa d)))) in
    rw (dotted, parse_ipv4-ipv4_string a b c d ha hb hc hd) refl
