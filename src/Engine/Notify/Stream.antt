-- ===== src/Engine/Notify/Stream.antt =====
-- main.go, in `run`: the handler of /api/v1/events, as a machine over what may happen to one
-- stream. The state is the counter of its changes, and a status event shows the one that was read
-- for it.
pub mod Current
use sshcustom_vpnchain.Base.{ℕ, suc, Bool, true, false, ◌||◌, List, [], ◌∷◌, if◌then◌else◌}

pub data StreamPhase : Type 0 where
  opening before_subscribe streaming closed : StreamPhase

-- A write is followed by whether it succeeds.
pub data StreamEvent : Type 0 where
  state_set : StreamEvent
  first_status : Bool → StreamEvent
  channel_made : StreamEvent
  notified heartbeat : Bool → StreamEvent
  client_gone : StreamEvent

-- What was written to the client.
pub data Frame : Type 0 where
  status_frame : ℕ → Frame
  ping_frame : Frame

-- `pending` is the place of the channel, and `frames` has the latest one first.
pub record EventStream : Type 0 where
  pub phase : StreamPhase
  pub changes : ℕ
  pub pending : Bool
  pub frames : List Frame

abbrev pub new_stream : ℕ → EventStream
new_stream n = record { phase = opening; changes = n; pending = false; frames = [] }

abbrev pub is_streaming : StreamPhase → Bool
is_streaming streaming = true
is_streaming _ = false

-- `state.set`: its broadcast reaches the stream's channel while that is subscribed.
set_under : EventStream → EventStream
set_under s = record s { changes = suc s.changes; pending = s.pending || is_streaming s.phase }

-- A write of a status: on an error the handler returns.
status_sent : StreamPhase → Bool → EventStream → EventStream
status_sent next true s = record s { phase = next; frames = status_frame s.changes ∷ s.frames }
status_sent next false s = record s { phase = closed }

ping_sent : Bool → EventStream → EventStream
ping_sent true s = record s { frames = ping_frame ∷ s.frames }
ping_sent false s = record s { phase = closed }

-- The select of the loop.
streaming_step : EventStream → StreamEvent → EventStream
unfolding status_sent ping_sent
streaming_step s (notified ok) =
    let sent = status_sent streaming ok (record s { pending = false }) in
    if s.pending then sent else s
streaming_step s (heartbeat ok) = ping_sent ok s
streaming_step s client_gone = record s { phase = closed }
streaming_step s _ = s

-- An event that cannot happen in a phase changes nothing.
in_phase : StreamPhase → EventStream → StreamEvent → EventStream
unfolding status_sent streaming_step
in_phase opening s (first_status ok) = status_sent before_subscribe ok s
in_phase before_subscribe s channel_made = record s { phase = streaming; pending = false }
in_phase streaming s e = streaming_step s e
in_phase _ s _ = s

unfoldable pub stream_step : EventStream → StreamEvent → EventStream
unfolding set_under in_phase
stream_step s state_set = set_under s
stream_step s e = in_phase s.phase s e

unfoldable pub stream_run : EventStream → List StreamEvent → EventStream
stream_run s [] = s
stream_run s (e ∷ es) = stream_run (stream_step s e) es
