-- ===== src/Engine/Notify.antt =====
-- main.go: `State.set`, `Subscribe` and `broadcast`. A subscriber is its channel, which holds at
-- most one notification. The state itself is a counter of its changes; a consumer that receives
-- reads the whole state, so it has then seen every change up to now. Stream is the handler of
-- /api/v1/events, one of the two consumers.
pub mod Wakeups
pub mod Channels
pub mod Stream
use sshcustom_vpnchain.Base.{
  ℕ, suc, Bool, true, false, ◌&&◌, List, [], ◌∷◌, ◌++◌, ◌==◌, if◌then◌else◌,
}

pub record Subscriber : Type 0 where
  pub channel : ℕ
  pub pending : Bool
  pub seen : ℕ
  pub since : ℕ

pub record Hub : Type 0 where
  pub changes : ℕ
  pub next_channel : ℕ
  pub subs : List Subscriber

-- `broadcast`: a send that does not block on a channel with one place.
unfoldable pub broadcast : List Subscriber → List Subscriber
broadcast [] = []
broadcast (s ∷ ss) = record s { pending = true } ∷ broadcast ss

-- `set`.
unfoldable pub set_state : Hub → Hub
unfolding broadcast
set_state h = record h { changes = suc h.changes; subs = broadcast h.subs }

-- `Subscribe`: a new channel, empty. The number is what its consumer has read of the state by then;
-- `since` remembers the state at this moment.
unfoldable pub subscribe : ℕ → Hub → Hub
subscribe read h = record h {
  next_channel = suc h.next_channel;
  subs =
      h.subs
      ++ record { channel = h.next_channel; pending = false; seen = read; since = h.changes } ∷ [];
}

-- The cleanup function of a channel.
unfoldable pub unsubscribed : ℕ → List Subscriber → List Subscriber
unsubscribed c [] = []
unsubscribed c (s ∷ ss) = if s.channel == c then ss else s ∷ unsubscribed c ss

-- A consumer receives on its channel, if there is a notification, and reads the state.
unfoldable pub received : ℕ → ℕ → List Subscriber → List Subscriber
received c now [] = []
received c now (s ∷ ss) =
    let rest = received c now ss in
    if s.channel == c && s.pending then record s { pending = false; seen = now } ∷ ss else s ∷ rest

pub data HubEvent : Type 0 where
  changed : HubEvent
  subscribed cleaned_up received_on : ℕ → HubEvent

unfoldable pub hub_step : Hub → HubEvent → Hub
unfolding set_state subscribe unsubscribed received
hub_step h changed = set_state h
hub_step h (subscribed read) = subscribe read h
hub_step h (cleaned_up c) = record h { subs = unsubscribed c h.subs }
hub_step h (received_on c) = record h { subs = received c h.changes h.subs }

unfoldable pub hub_run : Hub → List HubEvent → Hub
hub_run h [] = h
hub_run h (v ∷ vs) = hub_run (hub_step h v) vs

abbrev pub new_hub : Hub
new_hub = record { changes = 0; next_channel = 0; subs = [] }
