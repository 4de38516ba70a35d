-- ===== src/Pipe/Written.antt =====
-- `writeAll` ends, and what the connection has of the slice when it does.
use sshcustom_vpnchain.Base.{
  ℕ, zero, suc, ◌+◌, ◌≤◌, ◌<◌, ◌≡◌, refl, sym, ap, ◌∙◌, ◌≢◌, Bool, true, false, none, some, List,
  [], ◌∷◌, ◌++◌, append-nil, append_assoc, arith, ◌==◌, length, take, drop, Bytes,
}
use sshcustom_vpnchain.Pipe.{Writer, Copied, counted, write_all_on, write_all, out_of_fuel}
use sshcustom_vpnchain.Base.{length-drop}
use sshcustom_vpnchain.Pipe.{write_ended}

take-nil {ℓ} : {A : Type ℓ} (n : ℕ) → take {A = A} n [] ≡ []
take-nil zero = refl
take-nil (suc n) = refl

take-drop {ℓ} :
    {A : Type ℓ} (m n : ℕ) (xs : List A) → take m xs ++ take n (drop m xs) ≡ take (m + n) xs
take-drop zero n xs = ap (λ k. take k xs) (omega arith)
take-drop {A = A} (suc m) n [] = take-nil {A = A} n ∙ sym (take-nil {A = A} (suc m + n))
take-drop (suc m) n (x ∷ xs) =
    let e : suc (m + n) ≡ suc m + n = omega arith in
    ap (◌∷◌ x) (take-drop m n xs) ∙ ap (λ k. take k (x ∷ xs)) e

module _ {S : Type 0} (w : Writer S) where
  open w use {write, taken, write-within, taken-write}

  -- What `writeAll` of `b`, from `s` on, ends with.
  abbrev pub Wrote : S → Bytes → Copied S → Type 0
  Wrote s b r =
      (r.fault ≢ some out_of_fuel)
      × (taken r.conn ≡ taken s ++ take r.total b)
      × (r.total ≤ length b)
      × (r.fault ≡ none → r.total ≡ length b)

  Wrote-counted :
      (s s' : S) (n : ℕ) (b : Bytes) (r : Copied S)
      → n ≤ length b
      → taken s' ≡ taken s ++ take n b
      → Wrote s' (drop n b) r
      → Wrote s b (counted n r)
  Wrote-counted s s' n b r le e h = (
    h.0,
    (h.1
        ∙ ap (λ t. t ++ take r.total (drop n b)) e
        ∙ append_assoc (taken s) (take n b) (take r.total (drop n b))
        ∙ ap (λ t. taken s ++ t) (take-drop n r.total b)),
    omega (arith, h.2, length-drop n b),
    λ f. omega (arith, h.3 f, length-drop n b),
  )

  Wrote-ended :
      (s s' : S) (n : ℕ) (fails : Bool) (b : Bytes) (rest : Copied S)
      → n ≤ length b
      → taken s' ≡ taken s ++ take n b
      → (0 < n → Wrote s' (drop n b) rest)
      → Wrote s b (write_ended n fails s' rest)
  Wrote-ended s s' n true b rest le e h = (ground arith, e, le, ground arith)
  Wrote-ended s s' zero false b rest le e h = (ground arith, e, le, ground arith)
  Wrote-ended s s' (suc n) false b rest le e h =
      let positive : suc n == 0 ≡ false = ground arith in
      rw positive (Wrote-counted s s' (suc n) b rest le e (h (omega arith)))

  Wrote-on : (fuel : ℕ) (s : S) (b : Bytes) → length b ≤ fuel → Wrote s b (write_all_on w fuel s b)
  unfolding write_all_on
  Wrote-on fuel s [] h = (ground arith, sym (append-nil (taken s)), omega arith, ground arith)
  Wrote-on zero s (c ∷ b) h = absurd (omega arith)
  Wrote-on (suc fuel) s (c ∷ b) h =
      let r = write s (c ∷ b) in
      let rest = drop r.0.count (c ∷ b) in
      Wrote-ended s r.1 r.0.count r.0.failed (c ∷ b) (write_all_on w fuel r.1 rest)
        (write-within s (c ∷ b)) (taken-write s (c ∷ b))
        (λ some_taken. Wrote-on fuel r.1 rest (omega (arith, length-drop r.0.count (c ∷ b))))

  -- For any connection that keeps the contract of `io.Writer`, `writeAll` ends: after at most as many
  -- writes as the slice has bytes. The connection has then taken, in order, the first `total` bytes of
  -- the slice, which is no more than there are; and without an error it is the whole slice.
  pub write_all_ends :
      (s : S) (b : Bytes)
      → ((write_all w s b).fault ≢ some out_of_fuel)
        × (taken (write_all w s b).conn ≡ taken s ++ take (write_all w s b).total b)
        × ((write_all w s b).total ≤ length b)
        × ((write_all w s b).fault ≡ none → (write_all w s b).total ≡ length b)
  unfolding write_all
  write_all_ends s b = Wrote-on (length b) s b (omega arith)
