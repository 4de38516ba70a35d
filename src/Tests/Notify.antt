-- ===== src/Tests/Notify.antt =====
-- Examples for the subscribers of the state.
use sshcustom_vpnchain.Base.{◌≡◌, true, List, [], ◌∷◌, all}
use sshcustom_vpnchain.Engine.Notify.{HubEvent, changed, subscribed, received_on, hub_run, new_hub}
use sshcustom_vpnchain.Engine.Notify.Wakeups.{is_informed, hub_run_informed}
use sshcustom_vpnchain.Base.{refl}
use sshcustom_vpnchain.Engine.Notify.Stream.Current.{Current, stream_run-Current}
use sshcustom_vpnchain.Engine.Notify.Stream.{
  EventStream, new_stream, first_status, channel_made, state_set, heartbeat, notified, stream_step,
  stream_run,
}

-- Two subscribers, of which the first one is slow.
abbrev a_slow_reader : List HubEvent
a_slow_reader = subscribed 0 ∷ subscribed 0 ∷ changed ∷ received_on 1 ∷ changed ∷ []

hub_run_informed_example :
    all (is_informed (hub_run new_hub a_slow_reader).changes) (hub_run new_hub a_slow_reader).subs
    ≡ true
hub_run_informed_example = hub_run_informed a_slow_reader

-- Two changes share one notification, which is received once.
abbrev a_stream : EventStream
a_stream = stream_run (new_stream 7) (first_status true ∷ channel_made ∷ [])

stream_run-Current_example : Current (
    stream_run
      (stream_step a_stream state_set)
      (state_set ∷ heartbeat true ∷ notified true ∷ state_set ∷ []))
unfolding stream_run stream_step
stream_run-Current_example =
    stream_run-Current a_stream (state_set ∷ heartbeat true ∷ notified true ∷ state_set ∷ []) refl
