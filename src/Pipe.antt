-- ===== src/Pipe.antt =====
-- cmd/sshcustomd/main.go: `writeAll`, and `pipeBoth`, which copies between two connections until
-- one of them ends or nothing comes for a while. A connection that is written to is any
-- implementation of `Writer`. Reads and the passing of time are events, in the order in which the
-- goroutines see them; a read gives at most a buffer. Times are milliseconds.
pub mod Written
pub mod Delivered
pub mod Closing
pub mod Busy
use sshcustom_vpnchain.Base.{
  ℕ, zero, suc, ◌+◌, ◌-◌, ◌*◌, ◌≤◌, ◌≡◌, Bool, true, false, not, ◌||◌, Option, none, some, List, [],
  ◌∷◌, ◌++◌, ltb, ◌==◌, if◌then◌else◌, is_some, length, take, drop, ℤ, magnitude, nonpositive,
  Bytes,
}
use sshcustom_vpnchain.Base.{◌≡◌, refl, arith}
use sshcustom_vpnchain.Base.{◌&&◌}

-- How one `Write` ends.
pub record Write : Type 0 where
  pub count : ℕ
  pub failed : Bool

-- What `writeAll` relies on, the contract of `io.Writer`: a write takes no more than it is given,
-- and the connection keeps, in order, the bytes that it took.
pub record Writer (S : Type 0) : Type 0 where
  pub write : S → Bytes → Write × S
  pub taken : S → Bytes
  pub write-within : (s : S) (b : Bytes) → (write s b).0.count ≤ length b
  pub taken-write :
      (s : S) (b : Bytes) → taken (write s b).1 ≡ taken s ++ take (write s b).0.count b

-- `out_of_fuel` is the model's own, and never happens.
pub data WriteFault : Type 0 where
  write_failed short_write out_of_fuel : WriteFault

pub record Copied (S : Type 0) : Type 0 where
  pub total : ℕ
  pub fault : Option WriteFault
  pub conn : S

pub data Side : Type 0 where
  from_a from_b : Side

-- `src.Read` on one side, with the bytes it gave and whether it gave an error too; or time passes.
pub data CopyEvent : Type 0 where
  read : Side → Bytes → Bool → CopyEvent
  passes : ℕ → CopyEvent

-- Where the loop of `pipeBoth` waits: at the first select with the time left on its timer, at the
-- second with the time left on the grace timer, or nowhere, with both connections closed.
pub data CopyPhase : Type 0 where
  copying draining : ℕ → CopyPhase
  closed : CopyPhase

-- One of the two goroutines: what it writes to, and whether it has shut that for writing.
pub record Pump (S : Type 0) : Type 0 where
  pub dst : S
  pub running : Bool
  pub shut : Bool

pub record Pipe (S : Type 0) : Type 0 where
  pub phase : CopyPhase
  pub ahead : Pump S
  pub back : Pump S

abbrev pub counted : {S : Type 0} → ℕ → Copied S → Copied S
counted n r = record r { total = n + r.total }

-- A round of `writeAll` after its `Write`, with what the rounds after it would give.
abbrev pub write_ended : {S : Type 0} → ℕ → Bool → S → Copied S → Copied S
write_ended n true s rest = record { total = n; fault = some write_failed; conn = s }
write_ended n false s rest =
    if n == 0 then record { total = 0; fault = some short_write; conn = s } else counted n rest

abbrev pub default_idle : ℤ → ℕ
default_idle d = if nonpositive d then 120 * 1000 else magnitude d

abbrev pub grace : ℕ
grace = 400

-- `activity` sets the timer of the first select again.
abbrev pub on_activity : ℤ → Bytes → CopyPhase → CopyPhase
on_activity idle (c ∷ b) (copying left) = copying (default_idle idle)
on_activity idle _ phase = phase

-- `done`: the first starts the grace timer, the second closes.
abbrev pub on_done : Bool → CopyPhase → CopyPhase
on_done true phase = phase
on_done false (copying left) = draining grace
on_done false _ = closed

abbrev pub counted_down : ℕ → CopyPhase → CopyPhase
counted_down d (copying left) = if ltb d left then copying (left - d) else closed
counted_down d (draining left) = if ltb d left then draining (left - d) else closed
counted_down d closed = closed

abbrev pub is_closed : CopyPhase → Bool
is_closed closed = true
is_closed _ = false

pub is_closed-counted_down :
    (d : ℕ) (phase : CopyPhase) → is_closed phase ≡ true → is_closed (counted_down d phase) ≡ true
is_closed-counted_down d (copying left) h = absurd (ground arith)
is_closed-counted_down d (draining left) h = absurd (ground arith)
is_closed-counted_down d closed h = refl

module _ {S : Type 0} where
  -- A pump after its write: it ends on the error of the write, or on that of the read.
  abbrev pub pumped : Bool → Copied S → Pump S → Pump S
  pumped last r p =
      if is_some r.fault
      then record p { dst = r.conn; running = false }
      else record p { dst = r.conn; running = not last; shut = last }

  abbrev pub pump_of : Side → Pipe S → Pump S
  pump_of from_a t = t.ahead
  pump_of from_b t = t.back

  abbrev pub with_pump : Side → Pump S → Pipe S → Pipe S
  with_pump from_a p t = record t { ahead = p }
  with_pump from_b p t = record t { back = p }

  -- Neither goroutine has returned.
  abbrev pub both_run : Pipe S → Bool
  both_run t = t.ahead.running && t.back.running

  abbrev pub new_pump : S → Pump S
  new_pump s = record { dst = s; running = true; shut = false }

  -- `pipeBoth` once its goroutines are started.
  unfoldable pub pipe_both : ℤ → S → S → Pipe S
  pipe_both idle a b = record {
    phase = copying (default_idle idle);
    ahead = new_pump b;
    back = new_pump a;
  }

module _ {S : Type 0} (w : Writer S) where
  open w use {write}

  -- The loop of `writeAll`; a round that goes on has taken a byte, so a round per byte is enough.
  unfoldable pub write_all_on : ℕ → S → Bytes → Copied S
  write_all_on fuel s [] = record { total = 0; fault = none; conn = s }
  write_all_on zero s (c ∷ b) = record { total = 0; fault = some out_of_fuel; conn = s }
  write_all_on (suc fuel) s (c ∷ b) =
      let r = write s (c ∷ b) in
      let rest = write_all_on fuel r.1 (drop r.0.count (c ∷ b)) in
      write_ended r.0.count r.0.failed r.1 rest

  -- `writeAll`.
  unfoldable pub write_all : S → Bytes → Copied S
  unfolding write_all_on
  write_all s b = write_all_on (length b) s b

  -- One round of `pump`.
  unfoldable pub pump_round : Bytes → Bool → Pump S → Pump S
  unfolding write_all
  pump_round b last p = pumped last (write_all p.dst b) p

  -- What one event does; a pump that has returned, or whose connections are closed, reads no more.
  unfoldable pub pipe_step : ℤ → CopyEvent → Pipe S → Pipe S
  unfolding pump_round
  pipe_step idle (passes d) t = record t { phase = counted_down d t.phase }
  pipe_step idle (read side b last) t =
      let p = pump_round b last (pump_of side t) in
      let after = on_done p.running (on_activity idle b t.phase) in
      if is_closed t.phase || not (pump_of side t).running
      then t
      else record (with_pump side p t) { phase = after }

  unfoldable pub pipe_run : ℤ → List CopyEvent → Pipe S → Pipe S
  unfolding pipe_step
  pipe_run idle [] t = t
  pipe_run idle (e ∷ es) t = pipe_run idle es (pipe_step idle e t)
