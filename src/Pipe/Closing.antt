-- ===== src/Pipe/Closing.antt =====
-- When `pipeBoth` closes its two connections.
use sshcustom_vpnchain.Base.{
  ℕ, zero, suc, ◌+◌, ◌≤◌, ◌<◌, ◌≡◌, refl, ◌⊎◌, inl, inr, Bool, true, false, not, ◌||◌, List, [],
  ◌∷◌, arith, Bool-cases, is_empty, all, ℤ, pos, negsuc, Bytes,
}
use sshcustom_vpnchain.Pipe.{
  Writer, Side, from_a, from_b, CopyEvent, read, passes, CopyPhase, copying, draining, closed, Pump,
  Pipe, pump_round, pump_of, with_pump, is_closed, on_done, on_activity, counted_down, pipe_step,
  pipe_run, pipe_both, default_idle, grace,
}
use sshcustom_vpnchain.Pipe.{is_closed-counted_down}
use sshcustom_vpnchain.Pipe.{both_run}

abbrev pub duration : CopyEvent → ℕ
duration (read side b last) = 0
duration (passes d) = d

-- An event that gives no bytes.
abbrev pub silent : CopyEvent → Bool
silent (read side b last) = is_empty b
silent (passes d) = true

abbrev pub elapsed : List CopyEvent → ℕ
elapsed [] = 0
elapsed (e ∷ es) = duration e + elapsed es

abbrev pub quiet : List CopyEvent → Bool
quiet = all silent

default_idle-positive : (idle : ℤ) → 0 < default_idle idle
default_idle-positive (pos zero) = omega arith
default_idle-positive (pos (suc n)) = ground arith
default_idle-positive (negsuc n) = omega arith

-- The timer that the loop waits for has time left, at most what it was set to; and while it is the
-- one of the first select, both pumps run.
abbrev Timed : ℤ → Bool → CopyPhase → Type 0
Timed idle both (copying left) = (0 < left) × (left ≤ default_idle idle) × (both ≡ true)
Timed idle both (draining left) = (0 < left) × (left ≤ grace)
Timed idle both closed = Unit

-- The most time that quiet leaves.
abbrev budget : CopyPhase → ℕ
budget (copying left) = left + grace
budget (draining left) = left
budget closed = 0

abbrev has_ended : CopyPhase → Bool
has_ended (copying left) = false
has_ended _ = true

-- What one event of the given duration makes of a phase.
abbrev Ages : ℤ → Bool → Bool → ℕ → CopyPhase → CopyPhase → Type 0
Ages idle both silent d phase after =
    Timed idle both after
    × (silent ≡ true → is_closed after ≡ true ⊎ (d + budget after ≤ budget phase))
    × (has_ended phase ≡ true
        → (has_ended after ≡ true) × (is_closed after ≡ true ⊎ (d + budget after ≤ budget phase)))

read-Ages :
    (idle : ℤ) (b : Bytes) (runs before both : Bool) (phase : CopyPhase)
    → Timed idle before phase
    → (before ≡ true → both ≡ runs)
    → Ages idle both (is_empty b) 0 phase (on_done runs (on_activity idle b phase))
read-Ages idle [] true before both (copying left) h e = ground (arith, default_idle-positive idle)
read-Ages idle [] false before both (copying left) h e = ground (arith, default_idle-positive idle)
read-Ages idle (c ∷ b) true before both (copying left) h e =
    ground (arith, default_idle-positive idle)
read-Ages idle (c ∷ b) false before both (copying left) h e =
    ground (arith, default_idle-positive idle)
read-Ages idle [] true before both (draining left) h e = ground (arith, default_idle-positive idle)
read-Ages idle [] false before both (draining left) h e = ground (arith, default_idle-positive idle)
read-Ages idle (c ∷ b) true before both (draining left) h e =
    ground (arith, default_idle-positive idle)
read-Ages idle (c ∷ b) false before both (draining left) h e =
    ground (arith, default_idle-positive idle)
read-Ages idle [] true before both closed h e = ground (arith, default_idle-positive idle)
read-Ages idle [] false before both closed h e = ground (arith, default_idle-positive idle)
read-Ages idle (c ∷ b) true before both closed h e = ground (arith, default_idle-positive idle)
read-Ages idle (c ∷ b) false before both closed h e = ground (arith, default_idle-positive idle)

passes-Ages :
    (idle : ℤ) (d : ℕ) (both : Bool) (phase : CopyPhase)
    → Timed idle both phase
    → Ages idle both true d phase (counted_down d phase)
passes-Ages idle d both (copying left) h = ground arith
passes-Ages idle d both (draining left) h = ground arith
passes-Ages idle d both closed h = ground arith

module _ {S : Type 0} (w : Writer S) where
  both_run-with_pump :
      (side : Side) (t : Pipe S) (p : Pump S)
      → both_run t ≡ true
      → both_run (with_pump side p t) ≡ p.running
  both_run-with_pump from_a t p h = ground arith
  both_run-with_pump from_b t p h = ground arith

  abbrev KeepsTime : ℤ → Pipe S → Type 0
  KeepsTime idle t = Timed idle (both_run t) t.phase

  step-Ages :
      (idle : ℤ) (e : CopyEvent) (t : Pipe S)
      → KeepsTime idle t
      → let u = pipe_step w idle e t in
        Ages idle (both_run u) (silent e) (duration e) t.phase u.phase
  unfolding pipe_step
  step-Ages idle (passes d) t h = passes-Ages idle d (both_run t) t.phase h
  step-Ages idle (read side b last) t h =
      let p = pump_round w b last (pump_of side t) in
      elim (Bool-cases (is_closed t.phase || not (pump_of side t).running)) [
        | inl past ↦ rw past (h, λ s. inr (omega arith), λ e. (e, inr (omega arith)))
        | inr active ↦ rw active (
            read-Ages idle b p.running (both_run t) (both_run (with_pump side p t)) t.phase h
              (both_run-with_pump side t p))
      ]

  closed-step :
      (idle : ℤ) (e : CopyEvent) (t : Pipe S)
      → is_closed t.phase ≡ true
      → is_closed (pipe_step w idle e t).phase ≡ true
  unfolding pipe_step
  closed-step idle (read side b last) t h =
      let past : is_closed t.phase || not (pump_of side t).running ≡ true = ground arith in
      rw past h
  closed-step idle (passes d) t h = is_closed-counted_down d t.phase h

  closed-run :
      (idle : ℤ) (es : List CopyEvent) (t : Pipe S)
      → is_closed t.phase ≡ true
      → is_closed (pipe_run w idle es t).phase ≡ true
  unfolding pipe_run
  closed-run idle [] t h = h
  closed-run idle (e ∷ es) t h = closed-run idle es (pipe_step w idle e t) (closed-step idle e t h)

  run-KeepsTime :
      (idle : ℤ) (es : List CopyEvent) (t : Pipe S)
      → KeepsTime idle t
      → KeepsTime idle (pipe_run w idle es t)
  unfolding pipe_run
  run-KeepsTime idle [] t h = h
  run-KeepsTime idle (e ∷ es) t h =
      run-KeepsTime idle es (pipe_step w idle e t) (step-Ages idle e t h).0

  run-budget :
      (idle : ℤ) (es : List CopyEvent) (t : Pipe S)
      → KeepsTime idle t
      → quiet es || has_ended t.phase ≡ true
      → is_closed (pipe_run w idle es t).phase ≡ true
        ⊎ (elapsed es + budget (pipe_run w idle es t).phase ≤ budget t.phase)
  unfolding pipe_run
  run-budget idle [] t h q = inr (omega arith)
  run-budget idle (e ∷ es) t h q =
      let u = pipe_step w idle e t in
      let a = step-Ages idle e t h in
      elim (Bool-cases (has_ended t.phase)) [
        | inl ended ↦ elim (a.2 ended).1 [
          | inl over ↦ inl (closed-run idle es u over)
          | inr less ↦
              let more = run-budget idle es u a.0 (ground (arith, (a.2 ended).0)) in
              ground (arith, more)
        ]
        | inr before ↦
            let calm : silent e ≡ true = ground arith in
            let calm_after : quiet es ≡ true = ground arith in
            elim (a.1 calm) [
              | inl over ↦ inl (closed-run idle es u over)
              | inr less ↦
                  let more = run-budget idle es u a.0 (ground (arith, calm_after)) in
                  ground (arith, more)
            ]
      ]

  budget-positive :
      (idle : ℤ) (both : Bool) (phase : CopyPhase)
      → Timed idle both phase
      → is_closed phase ≡ true ⊎ (0 < budget phase)
  budget-positive idle both (copying left) h = inr (omega arith)
  budget-positive idle both (draining left) h = inr (omega (arith, h.0))
  budget-positive idle both closed h = inl refl

  budget-bounded :
      (idle : ℤ) (both : Bool) (phase : CopyPhase)
      → Timed idle both phase
      → budget phase ≤ default_idle idle + grace
  budget-bounded idle both (copying left) h = omega (arith, h.1)
  budget-bounded idle both (draining left) h = omega (arith, h.1)
  budget-bounded idle both closed h = omega arith

  ended-bounded :
      (idle : ℤ) (both : Bool) (phase : CopyPhase)
      → Timed idle both phase
      → both ≡ false
      → (has_ended phase ≡ true) × (budget phase ≤ grace)
  ended-bounded idle both (copying left) h e = absurd (ground arith)
  ended-bounded idle both (draining left) h e = (refl, h.1)
  ended-bounded idle both closed h e = (refl, omega arith)

  -- Before the events `later`, a pipe that has run for the events `before`.
  abbrev pub running_pipe : ℤ → S → S → List CopyEvent → Pipe S
  running_pipe idle a b before = pipe_run w idle before (pipe_both idle a b)

  started-KeepsTime :
      (idle : ℤ) (a b : S) (before : List CopyEvent) → KeepsTime idle (running_pipe idle a b before)
  unfolding pipe_both
  started-KeepsTime idle a b before =
      run-KeepsTime idle before (pipe_both idle a b) (default_idle-positive idle, omega arith, refl)

  -- A pipe does not outlive silence: at whatever point of its run, once no read gives a byte for
  -- `idleTimeout` (120 seconds where that is not positive) and the 400 ms of grace, both connections
  -- are closed.
  pub quiet_pipe_closes :
      (idle : ℤ) (a b : S) (before later : List CopyEvent)
      → quiet later ≡ true
      → default_idle idle + grace ≤ elapsed later
      → is_closed (pipe_run w idle later (running_pipe idle a b before)).phase ≡ true
  quiet_pipe_closes idle a b before later q long =
      let t = running_pipe idle a b before in
      let k = started-KeepsTime idle a b before in
      let end = run-KeepsTime idle later t k in
      ground (
        arith,
        run-budget idle later t k,
        budget-bounded idle (both_run t) t.phase k,
        budget-positive idle (both_run (pipe_run w idle later t)) (pipe_run w idle later t).phase
            end,
      )

  -- Nor does it outlive one of its ends: once a pump has returned, on either side and for any reason,
  -- both connections are closed 400 ms later at the latest, whatever the other side still sends.
  pub ended_pipe_closes :
      (idle : ℤ) (a b : S) (before later : List CopyEvent)
      → both_run (running_pipe idle a b before) ≡ false
      → grace ≤ elapsed later
      → is_closed (pipe_run w idle later (running_pipe idle a b before)).phase ≡ true
  ended_pipe_closes idle a b before later e long =
      let t = running_pipe idle a b before in
      let k = started-KeepsTime idle a b before in
      let end = run-KeepsTime idle later t k in
      let past = ended-bounded idle (both_run t) t.phase k e in
      ground (
        arith,
        run-budget idle later t k,
        past,
        budget-positive idle (both_run (pipe_run w idle later t)) (pipe_run w idle later t).phase
            end,
      )
