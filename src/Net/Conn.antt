-- ===== src/Net/Conn.antt =====
-- A stream connection for one exchange: the bytes that the peer sends before it closes, the bytes
-- written so far, and whether writes fail. A routine is a function from the connection to its
-- result and the connection after it, so that what was written before an error is kept.
use sshcustom_vpnchain.Base.{
  ℕ, zero, suc, ◌≡◌, refl, inl, inr, Bool, true, false, Option, none, some, [], ◌∷◌, ◌++◌, arith,
  if◌then◌else◌, Option-cases, length, Bytes,
}
use sshcustom_vpnchain.Base.Res.{Res, ok, err}

pub record Conn : Type 0 where
  pub input : Bytes
  pub output : Bytes
  pub broken : Bool

pub data Fault : Type 0 where
  -- `io.ReadFull` at the end of the stream, and a failed `Write`.
  end_of_input write_failed : Fault
  -- A check of the code's own that refused the value read.
  refused : ℕ → Fault

abbrev pub M : Type 0 → Type 0
M A = Conn → Res Fault A × Conn

abbrev pub bind_result {ℓ} :
    {A B : Type ℓ} → (A → Conn → Res Fault B × Conn) → Res Fault A × Conn → Res Fault B × Conn
bind_result f (ok a, c) = f a c
bind_result f (err e, c) = (err e, c)

infixl 5 ◌>>=◌ ◌>>◌
abbrev pub ◌>>=◌ : {A B : Type 0} → M A → (A → M B) → M B
◌>>=◌ m f c = bind_result f (m c)

abbrev pub ◌>>◌ : {B : Type 0} → M (Unit {0}) → M B → M B
m >> k = m >>= λ _. k

abbrev pub pure : {A : Type 0} → A → M A
pure a c = (ok a, c)

abbrev pub fail : {A : Type 0} → Fault → M A
fail e c = (err e, c)

-- `if test { return error }`.
abbrev pub refuse_if : Bool → ℕ → M (Unit {0})
refuse_if true why = fail (refused why)
refuse_if false why = pure tt

abbrev pub push : ℕ → Option (Bytes × Bytes) → Option (Bytes × Bytes)
push b none = none
push b (some (xs, r)) = some (b ∷ xs, r)

-- The outcome of `io.ReadFull(c, buf[:n])`: the stream's first n bytes and the rest of it.
abbrev pub split_at : ℕ → Bytes → Option (Bytes × Bytes)
split_at zero s = some ([], s)
split_at (suc n) [] = none
split_at (suc n) (b ∷ s) = push b (split_at n s)

abbrev pub full_read : Conn → Option (Bytes × Bytes) → Res Fault Bytes × Conn
full_read c none = (err end_of_input, record c { input = [] })
full_read c (some (xs, r)) = (ok xs, record c { input = r })

-- `io.ReadFull`.
abbrev pub read_full : ℕ → M Bytes
read_full n c = full_read c (split_at n c.input)

-- `Write` of a whole slice.
abbrev pub write : Bytes → M (Unit {0})
write bs c =
    if c.broken then (err write_failed, c) else (ok tt, record c { output = c.output ++ bs })

-- `buf[i]`, inside the slice.
abbrev pub byte_at : Bytes → ℕ → ℕ
byte_at [] i = 0
byte_at (b ∷ s) zero = b
byte_at (b ∷ s) (suc i) = byte_at s i

pub split_at-append : (xs r : Bytes) → split_at (length xs) (xs ++ r) ≡ some (xs, r)
split_at-append [] r = refl
split_at-append (b ∷ xs) r = ground (arith, split_at-append xs r)

pub split_at_sound :
    (n : ℕ) (s xs r : Bytes) → split_at n s ≡ some (xs, r) → (s ≡ xs ++ r) × (length xs ≡ n)
split_at_sound zero s xs r h = ground arith
split_at_sound (suc n) [] xs r h = ground arith
split_at_sound (suc n) (b ∷ s) xs r h = elim (Option-cases (split_at n s)) [
  | inl e ↦ absurd (ground (arith, e))
  | inr ((ys, q), e) ↦ ground (arith, e, split_at_sound n s ys q e)
]

-- Inversion of a successful chain.
pub bind_result-eq-ok :
    {A B : Type 0} (r : Res Fault A × Conn) (f : A → M B) (c : Conn) (b : B)
    → bind_result f r ≡ (ok b, c)
    → (a : A) × (d : Conn) × (r ≡ (ok a, d)) × (f a d ≡ (ok b, c))
bind_result-eq-ok (ok a, d) f c b h = (a, d, refl, h)
bind_result-eq-ok (err e, d) f c b h = absurd (ground (arith, h))

pub >>=-eq-ok :
    {A B : Type 0} (m : M A) (f : A → M B) (c c' : Conn) (b : B)
    → (m >>= f) c ≡ (ok b, c')
    → (a : A) × (d : Conn) × (m c ≡ (ok a, d)) × (f a d ≡ (ok b, c'))
>>=-eq-ok m f c c' b h = bind_result-eq-ok (m c) f c' b h

-- What a successful read leaves, and that it changes nothing else.
pub read_full_sound :
    (n : ℕ) (c c' : Conn) (xs : Bytes)
    → read_full n c ≡ (ok xs, c')
    → (c.input ≡ xs ++ c'.input) × (length xs ≡ n) × (c' ≡ record c { input = c'.input })
read_full_sound n c c' xs h = elim (Option-cases (split_at n c.input)) [
  | inl e ↦ absurd (ground (arith, e))
  | inr ((ys, q), e) ↦ ground (arith, split_at_sound n c.input ys q e)
]

-- A slice of known length, byte by byte.
pub one_byte : (xs : Bytes) → length xs ≡ 1 → xs ≡ byte_at xs 0 ∷ []
one_byte [] h = ground arith
one_byte (a ∷ []) h = refl
one_byte (a ∷ b ∷ xs) h = ground arith

pub two_bytes : (xs : Bytes) → length xs ≡ 2 → xs ≡ byte_at xs 0 ∷ byte_at xs 1 ∷ []
two_bytes [] h = ground arith
two_bytes (a ∷ xs) h = ground (arith, one_byte xs (omega arith))

pub four_bytes :
    (xs : Bytes)
    → length xs ≡ 4
    → xs ≡ byte_at xs 0 ∷ byte_at xs 1 ∷ byte_at xs 2 ∷ byte_at xs 3 ∷ []
four_bytes [] h = ground arith
four_bytes (a ∷ []) h = ground arith
four_bytes (a ∷ b ∷ xs) h = ground (arith, two_bytes xs (omega arith))
