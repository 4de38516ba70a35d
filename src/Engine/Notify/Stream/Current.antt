-- ===== src/Engine/Notify/Stream/Current.antt =====
-- What a stream of events shows of the state.
use sshcustom_vpnchain.Base.{
  ℕ, zero, suc, ◌≡◌, refl, ap, Bool, true, false, ◌||◌, List, [], ◌∷◌, arith, ◌==◌,
}
use sshcustom_vpnchain.Engine.Notify.Stream.{
  StreamPhase, opening, before_subscribe, streaming, closed, StreamEvent, state_set, first_status,
  channel_made, notified, heartbeat, client_gone, Frame, status_frame, ping_frame, EventStream,
  new_stream, set_under, status_sent, ping_sent, streaming_step, in_phase, stream_step, stream_run,
}
use sshcustom_vpnchain.Engine.Notify.Stream.{is_streaming}

-- The latest status event shows this state.
abbrev pub shows : ℕ → List Frame → Bool
shows n [] = false
shows n (status_frame k ∷ fs) = k == n
shows n (ping_frame ∷ fs) = shows n fs

-- The stream has ended, or it goes on, and a notification waits or the newest state is the one that
-- was shown.
abbrev pub CurrentIn : StreamPhase → ℕ → Bool → List Frame → Type 0
CurrentIn opening n pending fs = ⊥
CurrentIn before_subscribe n pending fs = ⊥
CurrentIn streaming n pending fs = pending || shows n fs ≡ true
CurrentIn closed n pending fs = Unit

abbrev pub Current : EventStream → Type 0
Current s = CurrentIn s.phase s.changes s.pending s.frames

stream_of : StreamPhase → ℕ → Bool → List Frame → EventStream
stream_of phase n pending fs = record { phase = phase; changes = n; pending = pending; frames = fs }

step-streaming :
    (n : ℕ) (pending : Bool) (fs : List Frame) (e : StreamEvent)
    → pending || shows n fs ≡ true
    → Current (stream_step (stream_of streaming n pending fs) e)
unfolding stream_step set_under in_phase streaming_step status_sent ping_sent stream_of
step-streaming n pending fs state_set h = ground arith
step-streaming n pending fs (first_status ok) h = h
step-streaming n pending fs channel_made h = h
step-streaming n true fs (notified true) h = ground arith
step-streaming n true fs (notified false) h = tt
step-streaming n false fs (notified ok) h = h
step-streaming n pending fs (heartbeat true) h = h
step-streaming n pending fs (heartbeat false) h = tt
step-streaming n pending fs client_gone h = tt

step-closed :
    (n : ℕ) (pending : Bool) (fs : List Frame) (e : StreamEvent)
    → Current (stream_step (stream_of closed n pending fs) e)
unfolding stream_step set_under in_phase stream_of
step-closed n pending fs state_set = tt
step-closed n pending fs (first_status ok) = tt
step-closed n pending fs channel_made = tt
step-closed n pending fs (notified ok) = tt
step-closed n pending fs (heartbeat ok) = tt
step-closed n pending fs client_gone = tt

step-Current :
    (phase : StreamPhase) (n : ℕ) (pending : Bool) (fs : List Frame) (e : StreamEvent)
    → CurrentIn phase n pending fs
    → Current (stream_step (stream_of phase n pending fs) e)
step-Current opening n pending fs e h = absurd h
step-Current before_subscribe n pending fs e h = absurd h
step-Current streaming n pending fs e h = step-streaming n pending fs e h
step-Current closed n pending fs e h = step-closed n pending fs e

run-Current : (s : EventStream) (es : List StreamEvent) → Current s → Current (stream_run s es)
unfolding stream_run stream_of
run-Current s [] h = h
run-Current s (e ∷ es) h =
    run-Current (stream_step s e) es (step-Current s.phase s.changes s.pending s.frames e h)

set-Current :
    (phase : StreamPhase) (n : ℕ) (pending : Bool) (fs : List Frame)
    → phase ≡ streaming
    → CurrentIn phase (suc n) (pending || is_streaming phase) fs
set-Current opening n pending fs h =
    absurd (let e : false ≡ true = ap is_streaming h in ground (arith, e))
set-Current before_subscribe n pending fs h =
    absurd (let e : false ≡ true = ap is_streaming h in ground (arith, e))
set-Current streaming n pending fs h = ground arith
set-Current closed n pending fs h = tt

-- A stream of events keeps up: once the state has changed while the stream is subscribed, then
-- after anything that follows the stream has ended, or a notification waits for it, or the latest
-- status that it wrote is the newest state, however many changes share one notification and
-- whatever pings are between.
pub stream_run-Current :
    (s : EventStream) (es : List StreamEvent)
    → s.phase ≡ streaming
    → Current (stream_run (stream_step s state_set) es)
unfolding stream_step set_under
stream_run-Current s es h =
    run-Current (stream_step s state_set) es (set-Current s.phase s.changes s.pending s.frames h)

abbrev pub pings : ℕ → List StreamEvent
pings zero = []
pings (suc k) = heartbeat true ∷ pings k

missed :
    (k n : ℕ) (fs : List Frame)
    → shows n fs ≡ true
    → let s = stream_run (stream_of streaming (suc n) false fs) (pings k) in
      (s.changes ≡ suc n) × (s.pending ≡ false) × (shows n s.frames ≡ true)
unfolding stream_run stream_step in_phase streaming_step ping_sent stream_of
missed zero n fs h = (refl, refl, h)
missed (suc k) n fs h = missed k n (ping_frame ∷ fs) h

-- A change between the first status and the subscription is missed: the stream then shows the state
-- before it, with no notification to come, for as long as only pings follow.
pub stream_run_gap :
    (k n : ℕ)
    → let s = stream_run (new_stream n) (first_status true ∷ state_set ∷ channel_made ∷ pings k) in
      (s.changes ≡ suc n) × (s.pending ≡ false) × (shows n s.frames ≡ true)
unfolding stream_run stream_step in_phase status_sent set_under stream_of
stream_run_gap k n = missed k n (status_frame n ∷ []) (ground arith)
