-- ===== src/Transport/Banner.antt =====
-- What SSH reads of the server.
use sshcustom_vpnchain.Base.{
  ℕ, suc, ◌≤◌, ◌≡◌, ap, inl, inr, true, Option, none, some, List, [], ◌∷◌, ◌++◌, append_assoc,
  arith, Bool-cases, length, all, Bytes,
}
use sshcustom_vpnchain.Base.Text.{cut, has_prefix}
use sshcustom_vpnchain.Base.Res.{ok}
use mathlib.Core.Option
use sshcustom_vpnchain.Transport.{
  Read, chunk, timed_out, at_end, broken_off, bytes_of, probe_ended, probe_onto,
}

ended-bytes :
    (out all : Bytes) (rs rest : List Read)
    → probe_ended out rs ≡ (ok all, rest)
    → out ++ bytes_of rs ≡ all ++ bytes_of rest
ended-bytes [] all rs rest h = absurd (ground arith)
ended-bytes (b ∷ out) all rs rest h = ground arith

pub onto-bytes :
    (rs rest : List Read) (out all : Bytes)
    → probe_onto out rs ≡ (ok all, rest)
    → out ++ bytes_of rs ≡ all ++ bytes_of rest
unfolding probe_onto
onto-bytes [] rest out all h = ended-bytes out all [] rest h
onto-bytes (chunk bs ∷ rs) rest out all h = ground (
  arith,
  append_assoc out bs (bytes_of rs),
  ended-bytes out all (chunk bs ∷ rs) rest,
  onto-bytes rs rest (out ++ bs) all,
)
onto-bytes (timed_out ∷ rs) rest out all h =
    ground (arith, ended-bytes out all (timed_out ∷ rs) rest, ended-bytes out all rs rest)
onto-bytes (at_end ∷ rs) rest out all h =
    ground (arith, ended-bytes out all (at_end ∷ rs) rest, ended-bytes out all rs rest)
onto-bytes (broken_off ∷ rs) rest out all h =
    ground (arith, ended-bytes out all (broken_off ∷ rs) rest)

has_prefix-append : (s p r : Bytes) → length p ≤ length s → has_prefix (s ++ r) p ≡ has_prefix s p
has_prefix-append s [] r h = ground arith
has_prefix-append [] (c ∷ p) r h = absurd (ground arith)
has_prefix-append (d ∷ s) (c ∷ p) r h = ground (arith, has_prefix-append s p r)

has_prefix_long : (s p : Bytes) → has_prefix s p ≡ true → length p ≤ length s
has_prefix_long s [] h = omega arith
has_prefix_long [] (c ∷ p) h = absurd (ground arith)
has_prefix_long (d ∷ s) (c ∷ p) h = ground (arith, has_prefix_long s p)

-- What the search finds later in a text.
abbrev shifted : ℕ → Option (Bytes × Bytes) → Option (Bytes × Bytes)
shifted c o = Option.map (λ (t : Bytes × Bytes). (c ∷ t.0, t.1)) o

shifted-some :
    (c : ℕ) (o : Option (Bytes × Bytes)) (a b : Bytes)
    → shifted c o ≡ some (a, b)
    → (a' : Bytes) × (o ≡ some (a', b)) × (a ≡ c ∷ a')
shifted-some c none a b h = absurd (ground arith)
shifted-some c (some (x, y)) a b h = (x, ground arith, ground arith)

cut_long : (q : ℕ) (s p a b : Bytes) → cut s (q ∷ p) ≡ some (a, b) → suc (length p) ≤ length s
unfolding cut
cut_long q [] p a b h = absurd (ground arith)
cut_long q (c ∷ s) p a b h = elim (Bool-cases (has_prefix (c ∷ s) (q ∷ p))) [
  | inl here ↦ has_prefix_long (c ∷ s) (q ∷ p) here
  | inr later ↦
      let found : shifted c (cut s (q ∷ p)) ≡ some (a, b) = ground arith in
      let part = shifted-some c (cut s (q ∷ p)) a b found in
      omega (arith, cut_long q s p part.0 b part.1)
]

pub cut-append :
    (q : ℕ) (s p r a b : Bytes)
    → cut s (q ∷ p) ≡ some (a, b)
    → cut (s ++ r) (q ∷ p) ≡ some (a, b ++ r)
unfolding cut
cut-append q [] p r a b h = absurd (ground arith)
cut-append q (c ∷ s) p r a b h =
    let long = cut_long q (c ∷ s) p a b h in
    let same = has_prefix-append (c ∷ s) (q ∷ p) r long in
    elim (Bool-cases (has_prefix (c ∷ s) (q ∷ p))) [
      | inl here ↦ ground (arith, same)
      | inr later ↦
          let found : shifted c (cut s (q ∷ p)) ≡ some (a, b) = ground arith in
          let part = shifted-some c (cut s (q ∷ p)) a b found in
          let rest = cut-append q s p r part.0 b part.1 in
          let step : shifted c (cut (s ++ r) (q ∷ p)) ≡ some (c ∷ part.0, b ++ r) =
            ap (shifted c) rest in
          ground (arith, same, step, part.2)
    ]
