-- ===== src/Pipe/Busy.antt =====
-- `pipeBoth` does not close while both sides are copied and no silence lasts for the idle time.
use sshcustom_vpnchain.Base.{
  ℕ, ◌-◌, ◌≡◌, refl, ap, ◌∙◌, inl, inr, Bool, true, false, not, ◌&&◌, ◌||◌, List, [], ◌∷◌, arith,
  ltb, if◌then◌else◌, Bool-cases, ℤ, Bytes,
}
use sshcustom_vpnchain.Pipe.{
  Writer, Side, from_a, from_b, CopyEvent, read, passes, copying, closed, Pump, Pipe, pump_round,
  pump_of, with_pump, is_closed, on_done, on_activity, counted_down, pipe_step, pipe_run, pipe_both,
  default_idle,
}
use sshcustom_vpnchain.Pipe.{both_run}

-- The time that an event leaves on the timer.
abbrev time_left : ℤ → CopyEvent → ℕ → ℕ
time_left idle (read side [] last) left = left
time_left idle (read side (c ∷ b) last) left = default_idle idle
time_left idle (passes d) left = left - d

abbrev in_time : CopyEvent → ℕ → Bool
in_time (read side b last) left = true
in_time (passes d) left = ltb d left

-- No event finds the timer run out, where it has `left` at first and a read of any bytes sets it.
abbrev pub no_silence : ℤ → ℕ → List CopyEvent → Bool
no_silence idle left [] = true
no_silence idle left (e ∷ es) = in_time e left && no_silence idle (time_left idle e left) es

on_activity-copying :
    (idle : ℤ) (side : Side) (b : Bytes) (last : Bool) (left : ℕ)
    → on_activity idle b (copying left) ≡ copying (time_left idle (read side b last) left)
on_activity-copying idle side [] last left = refl
on_activity-copying idle side (c ∷ b) last left = refl

module _ {S : Type 0} (w : Writer S) where
  -- A pump that has returned stays so.
  both_run-step :
      (idle : ℤ) (e : CopyEvent) (t : Pipe S)
      → both_run t ≡ false
      → both_run (pipe_step w idle e t) ≡ false
  unfolding pipe_step
  both_run-step idle (passes d) t h = h
  both_run-step idle (read from_a b last) t h =
      elim (Bool-cases (is_closed t.phase || not t.ahead.running)) [
        | inl past ↦ rw past h
        | inr active ↦ rw active (ground arith)
      ]
  both_run-step idle (read from_b b last) t h =
      elim (Bool-cases (is_closed t.phase || not t.back.running)) [
        | inl past ↦ rw past h
        | inr active ↦ rw active (ground arith)
      ]

  both_run-run :
      (idle : ℤ) (es : List CopyEvent) (t : Pipe S)
      → both_run t ≡ false
      → both_run (pipe_run w idle es t) ≡ false
  unfolding pipe_run
  both_run-run idle [] t h = h
  both_run-run idle (e ∷ es) t h =
      both_run-run idle es (pipe_step w idle e t) (both_run-step idle e t h)

  running-both_run :
      (side : Side) (t : Pipe S) (p : Pump S)
      → both_run (with_pump side p t) ≡ true
      → p.running ≡ true
  running-both_run from_a t p h = ground arith
  running-both_run from_b t p h = ground arith

  pump_of-both_run :
      (side : Side) (t : Pipe S) → both_run t ≡ true → (pump_of side t).running ≡ true
  pump_of-both_run from_a t h = ground arith
  pump_of-both_run from_b t h = ground arith

  phase-step :
      (idle : ℤ) (e : CopyEvent) (t : Pipe S) (left : ℕ)
      → t.phase ≡ copying left
      → both_run t ≡ true
      → in_time e left ≡ true
      → both_run (pipe_step w idle e t) ≡ true
      → (pipe_step w idle e t).phase ≡ copying (time_left idle e left)
  unfolding pipe_step
  phase-step idle (passes d) t left h b i =
      λ r. ap (counted_down d) h ∙ ap (λ c. if c then copying (left - d) else closed) i
  phase-step idle (read side bs last) t left h b i =
      let runs = pump_of-both_run side t b in
      let active : is_closed t.phase || not (pump_of side t).running ≡ false =
        ground (arith, h, runs) in
      let p = pump_round w bs last (pump_of side t) in
      rw active (λ r.
        let goes_on : p.running ≡ true = running-both_run side t p r in
        ap (λ c. on_done c (on_activity idle bs t.phase)) goes_on
        ∙ ap (on_activity idle bs) h
        ∙ on_activity-copying idle side bs last left)

  phase-run :
      (idle : ℤ) (es : List CopyEvent) (t : Pipe S) (left : ℕ)
      → t.phase ≡ copying left
      → both_run t ≡ true
      → no_silence idle left es ≡ true
      → both_run (pipe_run w idle es t) ≡ true
      → is_closed (pipe_run w idle es t).phase ≡ false
  unfolding pipe_run
  phase-run idle [] t left h b n r = ap is_closed h
  phase-run idle (e ∷ es) t left h runs n r =
      let u = pipe_step w idle e t in
      elim (Bool-cases (both_run u)) [
        | inl both ↦
            phase-run idle es u (time_left idle e left)
              (phase-step idle e t left h runs (ground arith) both) both (ground arith) r
        | inr over ↦ absurd (ground (arith, both_run-run idle es u over))
      ]

  -- A pipe in use stays open: as long as both pumps run and no time without a byte from either side
  -- lasts for the idle time (120 seconds where `idleTimeout` is not positive), the connections are
  -- not closed.
  pub busy_pipe_stays_open :
      (idle : ℤ) (a b : S) (es : List CopyEvent)
      → both_run (pipe_run w idle es (pipe_both idle a b)) ≡ true
      → no_silence idle (default_idle idle) es ≡ true
      → is_closed (pipe_run w idle es (pipe_both idle a b)).phase ≡ false
  unfolding pipe_both
  busy_pipe_stays_open idle a b es r n =
      phase-run idle es (pipe_both idle a b) (default_idle idle) refl refl n r
