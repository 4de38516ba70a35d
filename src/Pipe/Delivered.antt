-- ===== src/Pipe/Delivered.antt =====
-- What `pipeBoth` delivers, in each direction.
use sshcustom_vpnchain.Base.{
  ℕ, zero, suc, ◌≡◌, refl, sym, ap, ◌∙◌, inl, inr, Bool, true, false, not, ◌&&◌, ◌||◌, List, [],
  ◌∷◌, ◌++◌, append-nil, append_assoc, arith, if◌then◌else◌, Bool-cases, Option-cases, length, take,
  drop, ℤ, Bytes,
}
use sshcustom_vpnchain.Pipe.{
  Writer, Side, from_a, from_b, CopyEvent, read, passes, CopyPhase, Pump, Pipe, write_all,
  pump_round, pump_of, with_pump, is_closed, counted_down, pipe_step, pipe_run,
}
use sshcustom_vpnchain.Pipe.Written.{write_all_ends}
use sshcustom_vpnchain.Pipe.{is_closed-counted_down}

take-append-drop {ℓ} : {A : Type ℓ} (n : ℕ) (xs : List A) → xs ≡ take n xs ++ drop n xs
take-append-drop zero xs = refl
take-append-drop (suc n) [] = refl
take-append-drop (suc n) (x ∷ xs) = ap (◌∷◌ x) (take-append-drop n xs)

drop-length {ℓ} : {A : Type ℓ} (xs : List A) → drop (length xs) xs ≡ []
drop-length [] = refl
drop-length (x ∷ xs) = drop-length xs

abbrev same_side : Side → Side → Bool
same_side from_a from_a = true
same_side from_b from_b = true
same_side _ _ = false

-- What an event gives to read on a side, and whether it ends that side.
abbrev pub read_of : Side → CopyEvent → Bytes
read_of side (read other b last) = if same_side side other then b else []
read_of side (passes d) = []

abbrev pub ends : Side → CopyEvent → Bool
ends side (read other b last) = same_side side other && last
ends side (passes d) = false

-- All that a side gives to read, up to its end.
abbrev pub data_from : Side → List CopyEvent → Bytes
data_from side [] = []
data_from side (e ∷ es) = read_of side e ++ (if ends side e then [] else data_from side es)

module _ {S : Type 0} (w : Writer S) where
  open w use {taken}

  -- The pump of a side still reads.
  abbrev pub reads : Side → Pipe S → Bool
  reads side t = (pump_of side t).running && not (is_closed t.phase)

  abbrev pub shut_of : Side → Pipe S → Bool
  shut_of side t = (pump_of side t).shut

  abbrev pub sent : Side → Pipe S → Bytes
  sent side t = taken (pump_of side t).dst

  -- A part of the data, from its start on, was passed on, and all of it while the pump reads and once
  -- it has passed on the end.
  abbrev pub Delivers : Side → Pipe S → Pipe S → Bytes → Type 0
  Delivers side t u bytes =
      (part : Bytes) × (rest : Bytes) × (bytes ≡ part ++ rest)
      × (sent side u ≡ sent side t ++ part)
      × (reads side u || shut_of side u ≡ true → rest ≡ [])

  abbrev PumpFacts : Bytes → Bool → Pump S → Pump S → Type 0
  PumpFacts b last p q =
      (part : Bytes) × (rest : Bytes) × (b ≡ part ++ rest)
      × (taken q.dst ≡ taken p.dst ++ part)
      × (q.running || q.shut ≡ true → p.shut ≡ false → rest ≡ [])
      × (last ≡ true → q.running ≡ false)
      × (q.shut ≡ true → p.shut ≡ false → last ≡ true)
      × (q.running ≡ true → q.shut ≡ false)

  pumped-facts : (b : Bytes) (last : Bool) (p : Pump S) → PumpFacts b last p (pump_round w b last p)
  unfolding pump_round
  pumped-facts b last p =
      let wrote = write_all_ends w p.dst b in
      let r = write_all w p.dst b in
      elim (Option-cases r.fault) [
        | inl fine ↦ (
          take r.total b,
          drop r.total b,
          take-append-drop r.total b,
          rw fine wrote.1,
          (λ e f. ap (λ k. drop k b) (wrote.3 fine) ∙ drop-length b),
          rw fine (ground arith),
          rw fine (ground arith),
          rw fine (ground arith),
        )
        | inr (f, e) ↦ (
          take r.total b,
          drop r.total b,
          take-append-drop r.total b,
          rw e wrote.1,
          rw e (ground arith),
          rw e (ground arith),
          rw e (ground arith),
          rw e (ground arith),
        )
      ]

  abbrev StepFacts : Side → CopyEvent → Pipe S → Pipe S → Type 0
  StepFacts side e t u =
      Delivers side t u (read_of side e)
      × (ends side e ≡ true → reads side u ≡ false)
      × (shut_of side u ≡ true → ends side e ≡ true)
      × (reads side u ≡ true → shut_of side u ≡ false)

  -- What leaves the pump of a side as it is, and gives that side nothing to read.
  kept-facts :
      (side : Side) (e : CopyEvent) (t u : Pipe S)
      → pump_of side u ≡ pump_of side t
      → read_of side e ≡ []
      → ends side e ≡ false
      → shut_of side t ≡ false
      → StepFacts side e t u
  kept-facts side e t u same nothing goes_on open_end =
      let sent_same : sent side u ≡ sent side t ++ [] =
        ap (λ (p : Pump S). taken p.dst) same ∙ sym (append-nil (sent side t)) in
      let shut_same : shut_of side u ≡ false = ap (λ (p : Pump S). p.shut) same ∙ open_end in
      (
        ([], [], nothing, sent_same, λ c. refl),
        ground (arith, goes_on),
        ground (arith, shut_same),
        λ r. shut_same,
      )

  read-facts :
      (idle : ℤ) (side : Side) (b : Bytes) (last : Bool) (t u : Pipe S) (phase : CopyPhase)
      → shut_of side t ≡ false
      → u ≡ record (with_pump side (pump_round w b last (pump_of side t)) t) { phase = phase }
      → StepFacts side (read side b last) t u
  read-facts idle from_a b last t u phase open_end e =
      let f = pumped-facts b last t.ahead in
      let p : u.ahead ≡ pump_round w b last t.ahead = ap (λ (v : Pipe S). v.ahead) e in
      (
        (f.0, f.1, f.2, ap (λ (q : Pump S). taken q.dst) p ∙ f.3, ground (arith, p, f.4)),
        ground (arith, p, f.5),
        ground (arith, p, f.6),
        ground (arith, p, f.7),
      )
  read-facts idle from_b b last t u phase open_end e =
      let f = pumped-facts b last t.back in
      let p : u.back ≡ pump_round w b last t.back = ap (λ (v : Pipe S). v.back) e in
      (
        (f.0, f.1, f.2, ap (λ (q : Pump S). taken q.dst) p ∙ f.3, ground (arith, p, f.4)),
        ground (arith, p, f.5),
        ground (arith, p, f.6),
        ground (arith, p, f.7),
      )

  pump_of-phase :
      (side : Side) (t : Pipe S) (phase : CopyPhase)
      → pump_of side (record t { phase = phase }) ≡ pump_of side t
  pump_of-phase from_a t phase = refl
  pump_of-phase from_b t phase = refl

  ahead-read_b :
      (idle : ℤ) (b : Bytes) (last : Bool) (t : Pipe S)
      → (pipe_step w idle (read from_b b last) t).ahead ≡ t.ahead
  unfolding pipe_step
  ahead-read_b idle b last t = elim (Bool-cases (is_closed t.phase || not t.back.running)) [
    | inl past ↦ rw past refl
    | inr active ↦ rw active refl
  ]

  back-read_a :
      (idle : ℤ) (b : Bytes) (last : Bool) (t : Pipe S)
      → (pipe_step w idle (read from_a b last) t).back ≡ t.back
  unfolding pipe_step
  back-read_a idle b last t = elim (Bool-cases (is_closed t.phase || not t.ahead.running)) [
    | inl past ↦ rw past refl
    | inr active ↦ rw active refl
  ]

  step-facts :
      (idle : ℤ) (side : Side) (e : CopyEvent) (t : Pipe S)
      → reads side t ≡ true
      → shut_of side t ≡ false
      → StepFacts side e t (pipe_step w idle e t)
  unfolding pipe_step
  step-facts idle side (passes d) t r o =
      kept-facts side (passes d) t _ (pump_of-phase side t (counted_down d t.phase)) refl refl o
  step-facts idle from_a (read from_a b last) t r o =
      let active : is_closed t.phase || not t.ahead.running ≡ false = ground arith in
      rw active (read-facts idle from_a b last t _ _ o refl)
  step-facts idle from_b (read from_b b last) t r o =
      let active : is_closed t.phase || not t.back.running ≡ false = ground arith in
      rw active (read-facts idle from_b b last t _ _ o refl)
  step-facts idle from_a (read from_b b last) t r o =
      let u = pipe_step w idle (read from_b b last) t in
      kept-facts from_a (read from_b b last) t u (ahead-read_b idle b last t) refl refl o
  step-facts idle from_b (read from_a b last) t r o =
      let u = pipe_step w idle (read from_a b last) t in
      kept-facts from_b (read from_a b last) t u (back-read_a idle b last t) refl refl o

  still :
      (idle : ℤ) (side : Side) (e : CopyEvent) (t : Pipe S)
      → reads side t ≡ false
      → (pump_of side (pipe_step w idle e t) ≡ pump_of side t)
        × (reads side (pipe_step w idle e t) ≡ false)
  unfolding pipe_step
  still idle from_a (passes d) t r = (refl, ground (arith, is_closed-counted_down d t.phase))
  still idle from_b (passes d) t r = (refl, ground (arith, is_closed-counted_down d t.phase))
  still idle from_a (read from_a b last) t r =
      let past : is_closed t.phase || not t.ahead.running ≡ true = ground arith in rw past (refl, r)
  still idle from_b (read from_b b last) t r =
      let past : is_closed t.phase || not t.back.running ≡ true = ground arith in rw past (refl, r)
  still idle from_a (read from_b b last) t r =
      elim (Bool-cases (is_closed t.phase || not t.back.running)) [
        | inl past ↦ rw past (refl, r)
        | inr active ↦ rw active (ground arith)
      ]
  still idle from_b (read from_a b last) t r =
      elim (Bool-cases (is_closed t.phase || not t.ahead.running)) [
        | inl past ↦ rw past (refl, r)
        | inr active ↦ rw active (ground arith)
      ]

  still-run :
      (idle : ℤ) (side : Side) (es : List CopyEvent) (t : Pipe S)
      → reads side t ≡ false
      → (pump_of side (pipe_run w idle es t) ≡ pump_of side t)
        × (reads side (pipe_run w idle es t) ≡ false)
  unfolding pipe_run
  still-run idle side [] t r = (refl, r)
  still-run idle side (e ∷ es) t r =
      let now = still idle side e t r in
      let later = still-run idle side es (pipe_step w idle e t) now.1 in (later.0 ∙ now.0, later.1)

  -- What each side of `pipeBoth` gives to read reaches the other connection unchanged and in order,
  -- however the reads and the writes cut it, whatever the other side does and whenever the pipe
  -- closes. From a state in which a side is read and its end was not passed on, what the other
  -- connection has taken grows by a part of the data, from its start on; and it is all of the data, up
  -- to the read that ended it, as long as that side is still read, and whenever the end of the data was
  -- passed on (`CloseWrite`, or its substitute).
  pub pipe_run-Delivers :
      (idle : ℤ) (side : Side) (es : List CopyEvent) (t : Pipe S)
      → reads side t ≡ true
      → shut_of side t ≡ false
      → Delivers side t (pipe_run w idle es t) (data_from side es)
  unfolding pipe_run
  pipe_run-Delivers idle side [] t r o = ([], [], refl, sym (append-nil (sent side t)), λ c. refl)
  pipe_run-Delivers idle side (e ∷ es) t r o =
      let u = pipe_step w idle e t in
      let f = step-facts idle side e t r o in
      elim (Bool-cases (reads side u)) [
        | inl more ↦
            let next = pipe_run-Delivers idle side es u more (f.3 more) in
            let goes_on : ends side e ≡ false = ground (arith, f.1) in
            let whole : read_of side e ≡ f.0.0 =
              f.0.2 ∙ ap (λ x. f.0.0 ++ x) (f.0.4 (ground arith)) ∙ append-nil f.0.0 in
            let all_of : read_of side e ++ data_from side es ≡ (f.0.0 ++ next.0) ++ next.1 =
              ap (λ x. x ++ data_from side es) whole
              ∙ ap (λ x. f.0.0 ++ x) next.2
              ∙ sym (append_assoc f.0.0 next.0 next.1) in
            let grown : sent side (pipe_run w idle es u) ≡ sent side t ++ (f.0.0 ++ next.0) =
              next.3 ∙ ap (λ x. x ++ next.0) f.0.3 ∙ append_assoc (sent side t) f.0.0 next.0 in
            rw goes_on (f.0.0 ++ next.0, next.1, all_of, grown, next.4)
        | inr over ↦
            let after = still-run idle side es u over in
            let later = if ends side e then [] else data_from side es in
            let all_of : read_of side e ++ later ≡ f.0.0 ++ (f.0.1 ++ later) =
              ap (λ x. x ++ later) f.0.2 ∙ append_assoc f.0.0 f.0.1 later in
            let grown : sent side (pipe_run w idle es u) ≡ sent side t ++ f.0.0 =
              ap (λ (p : Pump S). taken p.dst) after.0 ∙ f.0.3 in
            let ended : reads side (pipe_run w idle es u) || shut_of side (pipe_run w idle es u)
                  ≡ true
                → f.0.1 ++ later ≡ [] =
              λ c. ground (arith, c, after.1, f.0.4, f.2, ap (λ (p : Pump S). p.shut) after.0) in
            (f.0.0, f.0.1 ++ later, all_of, grown, ended)
      ]
